-- ===== src/Vmm/Map.antt =====
-- kernel/mm/vmm/vmm.c: vmm_map_page and vmm_unmap_page.
use batos_os.Prelude.{
  ℕ, Bool, not, Option, none, some, ◌∷◌, Ptr, Status, ret, err, failed, ◌==◌, if◌then◌else◌,
  bit_and, bit_or,
}
use batos_os.Vmm.{
  Vmm, level_pt, level_pd, level_pdpt, address_mask, is_present, word, set_word,
  verify_page_table_root, verify_existing_child_table, get_or_create_table, rollback_page_table,
  pml4_index, pdpt_index, pd_index, pt_index,
}

-- `if (created) rollback_page_table(parent, index, child);`
unfoldable pub undo : Bool → Vmm → Ptr → ℕ → Ptr → Vmm
undo created s parent index child =
    if created then (rollback_page_table s parent index child).1 else s

-- `(physical_address & ADDRESS_MASK) | VMM_PRESENT | (flags & (VMM_WRITABLE | VMM_USER))`
abbrev pub leaf_entry : ℕ → ℕ → ℕ
leaf_entry physical flags = bit_or (bit_or (bit_and physical address_mask) 1) (bit_and flags 6)

-- `flags & ~(VMM_WRITABLE | VMM_USER)`, over 64 bits.
abbrev pub other_flags : ℕ → ℕ
other_flags flags = bit_and flags 0xFFFF_FFFF_FFFF_FFF9

abbrev pub page_offset : ℕ → ℕ
page_offset address = bit_and address 4095

-- What a call of vmm_map_page was given.
pub record Request : Type 0 where
  pub pml4 : ℕ
  pub virtual_address : ℕ
  pub physical_address : ℕ
  pub flags : ℕ

-- The last step, in the PT. The caller undoes what it has made when this fails.
unfoldable pub map_leaf : Request → Vmm → Ptr → Status × Vmm
map_leaf r s pt =
    if is_present (word s pt (pt_index r.virtual_address))
    then (err 1, s)
    else (ret 0, set_word s pt (pt_index r.virtual_address) (leaf_entry r.physical_address r.flags))

-- One level: the child of `parent`, then the rest of the mapping, and the child undone if it is new
-- and the rest fails.
unfoldable pub through : Request → ℕ → Vmm → Ptr → ℕ → (Vmm → Ptr → Status × Vmm) → Status × Vmm
unfolding undo get_or_create_table
through r child_level s parent index rest =
    let ((child, created), s1) = get_or_create_table s parent index r.flags child_level r.pml4 in
    if child == 0
    then (err 1, s1)
    else let (status, s2) = rest s1 child in
      if failed status then (status, undo created s2 parent index child) else (status, s2)

unfoldable pub map_pd : Request → Vmm → Ptr → Status × Vmm
unfolding through map_leaf
map_pd r s pd = through r level_pt s pd (pd_index r.virtual_address) (map_leaf r)

unfoldable pub map_pdpt : Request → Vmm → Ptr → Status × Vmm
unfolding through map_pd
map_pdpt r s pdpt = through r level_pd s pdpt (pdpt_index r.virtual_address) (map_pd r)

unfoldable pub map_root : Request → Vmm → Ptr → Status × Vmm
unfolding through map_pdpt
map_root r s pml4 = through r level_pdpt s pml4 (pml4_index r.virtual_address) (map_pdpt r)

unfoldable pub map_page : Vmm → Request → Status × Vmm
map_page s r =
    if r.pml4 == 0
    then (err 1, s)
    else if not (other_flags r.flags == 0)
    then (err 1, s)
    else if failed (verify_page_table_root s r.pml4)
    then (err 1, s)
    else if not (page_offset r.virtual_address == 0)
    then (err 1, s)
    else if not (page_offset r.physical_address == 0)
    then (err 1, s)
    else map_root r s r.pml4

-- The entry's part of vmm_unmap_page, with the PT: what `*physical_address` is given.
unfoldable pub clear_leaf : Vmm → Ptr → ℕ → Ptr → Option ℕ × Vmm
clear_leaf s pml4 address pt =
    let pte = word s pt (pt_index address) in
    if not (is_present pte)
    then (none, s)
    else let s1 = set_word s pt (pt_index address) 0 in
      (
        some (bit_and pte address_mask),
        if s1.active_address_space_pml4 == pml4
            then record s1 { invalidated = address ∷ s1.invalidated }
            else s1,
      )

-- The result is none where vmm_unmap_page returns -1.
unfoldable pub unmap_page : Vmm → Ptr → ℕ → Option ℕ × Vmm
unmap_page s pml4 address =
    if pml4 == 0
    then (none, s)
    else if failed (verify_page_table_root s pml4)
    then (none, s)
    else if not (page_offset address == 0)
    then (none, s)
    else let pdpt =
        verify_existing_child_table s (word s pml4 (pml4_index address)) level_pdpt pml4 in
      if pdpt == 0
      then (none, s)
      else let pd =
          verify_existing_child_table s (word s pdpt (pdpt_index address)) level_pd pml4 in
        if pd == 0
        then (none, s)
        else let pt = verify_existing_child_table s (word s pd (pd_index address)) level_pt pml4 in
          if pt == 0 then (none, s) else clear_leaf s pml4 address pt
