-- ===== src/Vmm/Clone.antt =====
-- kernel/mm/vmm/vmm.c: copies of hierarchies, from clone_page_table to vmm_prepare_address_space.
use batos_os.Prelude.{
  ℕ, zero, suc, ◌-◌, ◌^◌, ◌||◌, Bool, true, false, not, Option, none, some, List, [], ◌∷◌, Ptr,
  Status, ret, err, ltb, ◌==◌, if◌then◌else◌, bit_and, bit_or, update_first,
}
use batos_os.Vmm.{
  Vmm, TableRecord, is_at, level_pdpt, level_pml4, page_table_entries, address_mask, is_present,
  is_huge, word, set_word, allocate_page_table, find_page_table_record,
}
use batos_os.Vmm.Tree.{discard_page_table_tree}

-- `child | (entry & ~ADDRESS_MASK)`, over 64 bits.
abbrev pub moved_entry : Ptr → ℕ → ℕ
moved_entry child entry = bit_or child (bit_and entry (2 ^ 64 - 1 - address_mask))

abbrev pub with_owner : Ptr → TableRecord → TableRecord
with_owner owner r = record r { owner_pml4 = owner }

-- The loop that copies the entries that are left, from `index`; `below` copies a child. The result
-- is false where a child could not be copied.
unfoldable pub copy_entries : (Vmm → Ptr → Ptr × Vmm) → Bool → Vmm → Ptr → Ptr → ℕ → ℕ → Bool × Vmm
copy_entries below is_pt s source destination index zero = (true, s)
copy_entries below is_pt s source destination index (suc n) =
    let entry = word s source index in
    elim (is_present entry) [
      | false ↦ copy_entries below is_pt s source destination (suc index) n
      | true ↦ elim (is_pt || is_huge entry) [
        | true ↦
            copy_entries below is_pt (set_word s destination index entry) source destination
              (suc index) n
        | false ↦
            let (child, s1) = below s (bit_and entry address_mask) in
            elim (child == 0) [
              | true ↦ (false, s1)
              | false ↦
                  copy_entries below is_pt (set_word s1 destination index (moved_entry child entry))
                    source destination (suc index) n
            ]
      ]
    ]

-- What stands below a PT is no table, and is never copied.
abbrev pub no_table : Vmm → Ptr → Ptr × Vmm
no_table s physical = (0, s)

-- The end of a copy: the table, or nothing and the tables made so far discarded.
abbrev pub copied_or_discarded : ℕ → Ptr → Bool × Vmm → Ptr × Vmm
copied_or_discarded level destination (true, s) = (destination, s)
copied_or_discarded level destination (false, s) = (0, discard_page_table_tree level s destination)

-- The allocation and the owner's write of clone_page_table, whose table at level 3 owns itself; the
-- copy of the entries is `fill`, given the owner.
unfoldable pub start_clone : ℕ → Ptr → Vmm → Ptr → (Ptr → Vmm → Ptr → Bool × Vmm) → Ptr × Vmm
start_clone level owner s source fill =
    if source == 0
    then (0, s)
    else let (destination, s1) = allocate_page_table s level owner in
      if destination == 0
      then (0, s1)
      else let clone_owner = if level == level_pml4 then destination else owner in
        elim (find_page_table_record s1 destination) [
          | none ↦ (0, discard_page_table_tree level s1 destination)
          | some r ↦
              let s2 : Vmm = record s1 {
                page_table_records =
                    update_first (is_at destination) (with_owner clone_owner) s1.page_table_records;
              } in
              copied_or_discarded level destination (fill clone_owner s2 destination)
        ]

unfoldable pub clone_page_table : ℕ → Ptr → Vmm → Ptr → Ptr × Vmm
clone_page_table zero owner s source =
    start_clone zero owner s source
      λ o t destination. copy_entries no_table true t source destination 0 page_table_entries
clone_page_table (suc level) owner s source =
    start_clone (suc level) owner s source λ o t destination.
      copy_entries (clone_page_table level o) false t source destination 0 page_table_entries

unfoldable pub start_copy : ℕ → Ptr → Vmm → Ptr → (Vmm → Ptr → Bool × Vmm) → Ptr × Vmm
start_copy level owner s source fill =
    if (source == 0) || (owner == 0)
    then (0, s)
    else if ltb level_pdpt level
    then (0, s)
    else let (destination, s1) = allocate_page_table s level owner in
      if destination == 0
      then (0, s1)
      else copied_or_discarded level destination (fill s1 destination)

unfoldable pub copy_page_table_subtree : ℕ → Ptr → Vmm → Ptr → Ptr × Vmm
copy_page_table_subtree zero owner s source =
    start_copy zero owner s source
      λ t destination. copy_entries no_table true t source destination 0 page_table_entries
copy_page_table_subtree (suc level) owner s source =
    start_copy (suc level) owner s source λ t destination.
      copy_entries (copy_page_table_subtree level owner) false t source destination 0
        page_table_entries

-- `new_batos_roots` as the subtrees that are there, the latest first.
abbrev pub Roots : Type 0
Roots = List (ℕ × Ptr)

-- Both rollbacks of vmm_prepare_address_space: every subtree from the first index on, then the clone.
unfoldable pub discard_roots : Vmm → Roots → Vmm
discard_roots s [] = s
discard_roots s ((index, root) ∷ roots) =
    discard_page_table_tree level_pdpt (discard_roots s roots) root

-- The loop that builds the subtrees that `batos` lacks and `source` has. None where it fails.
unfoldable pub build_roots : Vmm → Ptr → Ptr → ℕ → ℕ → Roots → Option Roots × Vmm
build_roots s batos source index zero roots = (some roots, s)
build_roots s batos source index (suc n) roots =
    let entry = word s source index in
    elim (is_present (word s batos index) || not (is_present entry)) [
      | true ↦ build_roots s batos source (suc index) n roots
      | false ↦ elim (is_huge entry) [
        | true ↦ (none, discard_roots s roots)
        | false ↦
            let (child, s1) =
              copy_page_table_subtree level_pdpt batos s (bit_and entry address_mask) in
            elim (child == 0) [
              | true ↦ (none, discard_roots s1 roots)
              | false ↦ build_roots s1 batos source (suc index) n ((index, child) ∷ roots)
            ]
      ]
    ]

-- The loop that publishes the subtrees in the kernel's PML4.
unfoldable pub publish_roots : Vmm → Ptr → Ptr → Roots → Vmm
publish_roots s batos source [] = s
publish_roots s batos source ((index, root) ∷ roots) =
    let s1 = publish_roots s batos source roots in
    set_word s1 batos index (moved_entry root (word s1 source index))

unfoldable pub prepare_address_space : Vmm → Status × Vmm
prepare_address_space s =
    let current = bit_and s.cr3 address_mask in
    if s.kernel_pml4 == 0
    then (err 1, s)
    else if current == 0
    then (err 1, s)
    else if current == s.kernel_pml4
    then (ret 0, s)
    else let (cloned, s1) = clone_page_table level_pml4 0 s current in
      if cloned == 0
      then (err 1, s1)
      else let (built, s2) = build_roots s1 s1.kernel_pml4 current 0 page_table_entries [] in
        elim built [
          | none ↦ (err 1, discard_page_table_tree level_pml4 s2 cloned)
          | some roots ↦
              let s3 = publish_roots s2 s2.kernel_pml4 current roots in
              (ret 0, record s3 { last_cloned_pml4 = cloned })
        ]
