-- ===== src/Vmm.antt =====
-- kernel/mm/vmm/vmm.c: the state of the virtual memory manager, the registry of its page-table
-- frames, and the operations on one table. An entry is a word of the frame that holds its table; the
-- words stand under their physical addresses, since the direct map adds one offset to them all.
pub mod Map
pub mod Walk
pub mod Spaces
pub mod Tree
pub mod Clone
pub mod Compare
pub mod Sections
pub mod Records
pub mod Words
pub mod Valid
pub mod Alloc
pub mod Grow
pub mod Undo
pub mod Through
pub mod Level
pub mod Mapped
pub mod Paths
pub mod Trips
pub mod Keeps
pub mod Unmap
pub mod Unmapped
pub mod Active
pub mod Fade
use batos_os.Prelude.{
  ℕ, zero, suc, ◌+◌, ◌*◌, ◌/◌, ◌^◌, ◌&&◌, Bool, true, false, not, Option, none, some, List, [], ◌∷◌,
  ◌++◌, length, Ptr, null, Mem, store, Status, ret, err, failed, leb, ltb, ◌==◌, if◌then◌else◌,
  bit_and, bit_or, find_first, update_first,
}
use batos_os.Pmm.{Pmm, alloc_frame, free_frame}

-- `struct vmm_page_table_record`
pub record TableRecord : Type 0 where
  pub physical_address : ℕ
  pub owner_pml4 : ℕ
  pub validation_epoch : ℕ
  pub level : ℕ
  pub in_use : Bool

-- `struct vmm_address_space_record`
pub record SpaceRecord : Type 0 where
  pub pml4_physical : ℕ
  pub state : ℕ
  pub in_use : Bool

-- The static variables of vmm.c; a list of records holds as many as its counter says. Beside them
-- the frames' allocator, the words of memory, CR3, and the addresses that `invlpg` was given.
pub record Vmm : Type 0 where
  pub pmm : Pmm
  pub words : Mem ℕ
  pub page_table_records : List TableRecord
  pub validation_epoch : ℕ
  pub kernel_pml4 : ℕ
  pub last_cloned_pml4 : ℕ
  pub address_space_records : List SpaceRecord
  pub active_address_space_pml4 : ℕ
  pub cr3 : ℕ
  pub invalidated : List ℕ

-- `enum vmm_page_table_level`
abbrev pub level_pt : ℕ
level_pt = 0

abbrev pub level_pd : ℕ
level_pd = 1

abbrev pub level_pdpt : ℕ
level_pdpt = 2

abbrev pub level_pml4 : ℕ
level_pml4 = 3

abbrev pub page_table_entries : ℕ
page_table_entries = 512

abbrev pub address_mask : ℕ
address_mask = 0x000F_FFFF_FFFF_F000

abbrev pub is_present : ℕ → Bool
is_present entry = not (bit_and entry 1 == 0)

abbrev pub is_huge : ℕ → Bool
is_huge entry = not (bit_and entry 128 == 0)

-- `physical_to_virtual(table)[index]`, read and written.
unfoldable pub word : Vmm → Ptr → ℕ → ℕ
word s table index = s.words (table + 8 * index)

unfoldable pub set_word : Vmm → Ptr → ℕ → ℕ → Vmm
set_word s table index entry = record s { words = store s.words (table + 8 * index) entry }

-- The loop of zero_page, over the first `n` words.
unfoldable pub zero_words : Mem ℕ → Ptr → ℕ → Mem ℕ
zero_words words physical zero = words
zero_words words physical (suc n) = store (zero_words words physical n) (physical + 8 * n) 0

abbrev pub zero_page : Vmm → Ptr → Vmm
zero_page s physical = record s { words = zero_words s.words physical page_table_entries }

abbrev pub is_free : TableRecord → Bool
is_free r = not r.in_use

abbrev pub is_at : Ptr → TableRecord → Bool
is_at physical r = r.in_use && (r.physical_address == physical)

-- A slot of the table that no record was in.
abbrev pub blank : TableRecord
blank = record {
  physical_address = 0;
  owner_pml4 = 0;
  validation_epoch = 0;
  level = 0;
  in_use = false;
}

-- The four writes of register_page_table.
abbrev pub filled : Ptr → ℕ → Ptr → TableRecord → TableRecord
filled physical level owner r = record r {
  physical_address = physical;
  owner_pml4 = owner;
  level = level;
  in_use = true;
}

unfoldable pub register_page_table : Vmm → Ptr → ℕ → Ptr → Status × Vmm
register_page_table s physical level owner =
    if physical == 0
    then (err 1, s)
    else if ltb level_pml4 level
    then (err 1, s)
    else elim (find_first is_free s.page_table_records) [
      | some r ↦ (
        ret 0,
        record s {
          page_table_records =
              update_first is_free (filled physical level owner) s.page_table_records;
        },
      )
      | none ↦ if leb 4096 (length s.page_table_records) then (err 1, s) else (
        ret 0,
        record s {
          page_table_records = s.page_table_records ++ filled physical level owner blank ∷ [];
        },
      )
    ]

-- The owner that allocate_page_table registers: a PML4 without one owns itself.
abbrev pub owner_of : ℕ → Ptr → Ptr → Ptr
owner_of level owner physical = if level == level_pml4 && (owner == 0) then physical else owner

unfoldable pub allocate_page_table : Vmm → ℕ → Ptr → Ptr × Vmm
unfolding register_page_table
allocate_page_table s level owner =
    let (physical, pmm) = alloc_frame s.pmm in
    let s1 : Vmm = record s { pmm = pmm } in
    if physical == 0
    then (0, s1)
    else let s2 = zero_page s1 physical in
      let (status, s3) = register_page_table s2 physical level (owner_of level owner physical) in
      if failed status then (0, record s3 { pmm = free_frame s3.pmm physical }) else (physical, s3)

unfoldable pub find_page_table_record : Vmm → Ptr → Option TableRecord
find_page_table_record s physical =
    if physical == 0 then none else find_first (is_at physical) s.page_table_records

unfoldable pub verify_page_table_record : Vmm → Ptr → ℕ → Ptr → Status
unfolding find_page_table_record
verify_page_table_record s physical expected_level expected_owner =
    elim (find_page_table_record s physical) [
      | none ↦ err 1
      | some r ↦
          if not r.in_use
          then err 1
          else if not (r.level == expected_level)
          then err 1
          else if not (r.owner_pml4 == expected_owner)
          then err 1
          else ret 0
    ]

unfoldable pub verify_page_table_root : Vmm → Ptr → Status
unfolding verify_page_table_record
verify_page_table_root s pml4 =
    if pml4 == 0 then err 1 else verify_page_table_record s pml4 level_pml4 pml4

-- The table that an entry leads to, or 0.
unfoldable pub verify_existing_child_table : Vmm → ℕ → ℕ → Ptr → Ptr
unfolding verify_page_table_record
verify_existing_child_table s entry expected_level owner =
    if not (is_present entry)
    then 0
    else if is_huge entry
    then 0
    else if failed (verify_page_table_record s (bit_and entry address_mask) expected_level owner)
    then 0
    else bit_and entry address_mask

-- `child | VMM_PRESENT | VMM_WRITABLE | (flags & VMM_USER)`
abbrev pub child_entry : Ptr → ℕ → ℕ
child_entry child flags = bit_or (bit_or (bit_or child 1) 2) (bit_and flags 4)

-- The child's address or 0, and `*created`.
unfoldable pub get_or_create_table : Vmm → Ptr → ℕ → ℕ → ℕ → Ptr → (Ptr × Bool) × Vmm
unfolding word set_word verify_existing_child_table allocate_page_table
get_or_create_table s parent index flags child_level owner =
    if is_present (word s parent index)
    then ((verify_existing_child_table s (word s parent index) child_level owner, false), s)
    else let (child, s1) = allocate_page_table s child_level owner in
      if child == 0
      then ((0, false), s1)
      else ((child, true), set_word s1 parent index (child_entry child flags))

abbrev pub released : TableRecord → TableRecord
released r = record r { in_use = false }

unfoldable pub release_page_table : Vmm → Ptr → Status × Vmm
unfolding find_page_table_record
release_page_table s physical = elim (find_page_table_record s physical) [
  | none ↦ (err 1, s)
  | some r ↦ if not r.in_use then (err 1, s) else (
    ret 0,
    record s {
      page_table_records = update_first (is_at physical) released s.page_table_records;
      pmm = free_frame s.pmm physical;
    },
  )
]

-- The parent is the physical address of a table, whose pointer in the direct map is never NULL.
unfoldable pub rollback_page_table : Vmm → Ptr → ℕ → Ptr → Status × Vmm
unfolding word set_word release_page_table
rollback_page_table s parent index child =
    if child == 0
    then (err 1, s)
    else if not (is_present (word s parent index))
    then (err 1, s)
    else if not (bit_and (word s parent index) address_mask == child)
    then (err 1, s)
    else release_page_table (set_word s parent index 0) child

abbrev pub pml4_index : ℕ → ℕ
pml4_index address = bit_and (address / 2 ^ 39) 511

abbrev pub pdpt_index : ℕ → ℕ
pdpt_index address = bit_and (address / 2 ^ 30) 511

abbrev pub pd_index : ℕ → ℕ
pd_index address = bit_and (address / 2 ^ 21) 511

abbrev pub pt_index : ℕ → ℕ
pt_index address = bit_and (address / 2 ^ 12) 511
