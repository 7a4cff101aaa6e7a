-- ===== src/Vmm/Tree.antt =====
-- kernel/mm/vmm/vmm.c: whole hierarchies of tables. A hierarchy is walked down its levels, and each
-- table's entries from the first to the last.
use batos_os.Prelude.{
  ℕ, zero, suc, ◌&&◌, ◌||◌, Bool, true, false, not, none, some, map, Ptr, Status, ret, err, failed,
  ◌==◌, if◌then◌else◌, bit_and, update_first, add_u64,
}
use batos_os.Vmm.{
  Vmm, TableRecord, SpaceRecord, is_at, level_pt, level_pml4, page_table_entries, address_mask,
  is_present, is_huge, word, set_word, find_page_table_record, release_page_table,
  verify_page_table_root,
}
use batos_os.Vmm.Spaces.{find_address_space_record, write_space, active, inactive}

-- `record->validation_epoch = epoch;`
abbrev pub visited : ℕ → TableRecord → TableRecord
visited epoch r = record r { validation_epoch = epoch }

-- The guards of validate_address_space_tree, and its mark on the table's record.
unfoldable pub visit : Vmm → Ptr → ℕ → Ptr → ℕ → Status × Vmm
visit s physical level owner epoch = elim (find_page_table_record s physical) [
  | none ↦ (err 1, s)
  | some r ↦
      if not r.in_use || not (r.level == level) || not (r.owner_pml4 == owner)
      then (err 1, s)
      else if r.validation_epoch == epoch
      then (err 1, s)
      else (
        ret 0,
        record s {
          page_table_records = update_first (is_at physical) (visited epoch) s.page_table_records;
        },
      )
]

-- The loop over the entries that are left, from `index`; `below` validates a child.
unfoldable pub validate_entries :
    (Vmm → Ptr → Status × Vmm) → Bool → Vmm → Ptr → ℕ → ℕ → Status × Vmm
validate_entries below is_root s table index zero = (ret 0, s)
validate_entries below is_root s table index (suc n) =
    let entry = word s table index in
    elim (is_present entry) [
      | false ↦ validate_entries below is_root s table (suc index) n
      | true ↦ elim (is_huge entry) [
        | true ↦ elim is_root [
          | true ↦ (err 1, s)
          | false ↦ validate_entries below is_root s table (suc index) n
        ]
        | false ↦
            let (status, s1) = below s (bit_and entry address_mask) in
            elim (failed status) [
              | true ↦ (err 1, s1)
              | false ↦ validate_entries below is_root s1 table (suc index) n
            ]
      ]
    ]

unfoldable pub validate_address_space_tree : ℕ → Ptr → ℕ → Vmm → Ptr → Status × Vmm
unfolding visit
validate_address_space_tree zero owner epoch s physical =
    if physical == 0 then (err 1, s) else visit s physical level_pt owner epoch
validate_address_space_tree (suc level) owner epoch s physical =
    if physical == 0
    then (err 1, s)
    else let (status, s1) = visit s physical (suc level) owner epoch in
      if failed status
      then (err 1, s1)
      else validate_entries (validate_address_space_tree level owner epoch)
          (suc level == level_pml4) s1 physical 0 page_table_entries

-- The loop of destroy_address_space_tree and of discard_page_table_tree; `below` destroys a child.
unfoldable pub clear_entries : (Vmm → Ptr → Vmm) → Vmm → Ptr → ℕ → ℕ → Vmm
clear_entries below s table index zero = s
clear_entries below s table index (suc n) =
    let entry = word s table index in
    let s1 = if is_present entry then set_word s table index 0 else s in
    let s2 =
      if is_present entry && not (is_huge entry)
      then below s1 (bit_and entry address_mask)
      else s1 in
    clear_entries below s2 table (suc index) n

-- destroy_address_space_tree. It does not read its owner_pml4.
unfoldable pub destroy_address_space_tree : ℕ → Vmm → Ptr → Vmm
destroy_address_space_tree zero s physical = (release_page_table s physical).1
destroy_address_space_tree (suc level) s physical =
    let s1 = clear_entries (destroy_address_space_tree level) s physical 0 page_table_entries in
    (release_page_table s1 physical).1

-- The rollback of hierarchies that are made in part.
unfoldable pub discard_page_table_tree : ℕ → Vmm → Ptr → Vmm
discard_page_table_tree zero s physical =
    if physical == 0 then s else (release_page_table s physical).1
discard_page_table_tree (suc level) s physical =
    let s1 = clear_entries (discard_page_table_tree level) s physical 0 page_table_entries in
    if physical == 0 then s else (release_page_table s1 physical).1

-- `validation_epoch++`, where a counter that wraps to 0 clears every record's epoch.
unfoldable pub next_epoch : Vmm → Vmm
next_epoch s =
    let epoch = add_u64 s.validation_epoch 1 in
    if epoch == 0
    then record s {
      validation_epoch = 1;
      page_table_records = map (visited 0) s.page_table_records;
    }
    else record s { validation_epoch = epoch }

-- The guards of vmm_destroy_address_space.
unfoldable pub may_destroy : Vmm → Ptr → Bool
may_destroy s pml4 =
    if pml4 == 0
    then false
    else if pml4 == s.active_address_space_pml4
    then false
    else elim (find_address_space_record s.address_space_records pml4) [
      | none ↦ false
      | some r ↦ if r.state == active then false else not (failed (verify_page_table_root s pml4))
    ]

abbrev pub retired : SpaceRecord → SpaceRecord
retired r = record r { state = inactive; in_use = false }

unfoldable pub destroy_address_space : Vmm → Ptr → Status × Vmm
destroy_address_space s pml4 =
    if not (may_destroy s pml4)
    then (err 1, s)
    else let s1 = next_epoch s in
      let (status, s2) = validate_address_space_tree level_pml4 pml4 s1.validation_epoch s1 pml4 in
      if failed status
      then (err 1, s2)
      else let s3 = destroy_address_space_tree level_pml4 s2 pml4 in
        (
          ret 0,
          record s3 {
            address_space_records = write_space retired pml4 s3.address_space_records;
            last_cloned_pml4 = if s3.last_cloned_pml4 == pml4 then 0 else s3.last_cloned_pml4;
          },
        )
