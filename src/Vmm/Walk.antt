-- ===== src/Vmm/Walk.antt =====
-- kernel/mm/vmm/vmm.c: the software walks of the page tables, vmm_translate, vmm_inspect_mapping
-- and vmm_verify_page_table_ownership. A walk is none where the function returns -1.
use batos_os.Prelude.{
  ℕ, ◌-◌, ◌^◌, not, Option, none, some, Ptr, Status, ret, err, failed, ◌==◌, if◌then◌else◌, bit_and,
  bit_or,
}
use batos_os.Vmm.{
  Vmm, level_pt, level_pd, level_pdpt, level_pml4, address_mask, is_present, is_huge, word,
  verify_page_table_record, verify_page_table_root, verify_existing_child_table, pml4_index,
  pdpt_index, pd_index, pt_index,
}

-- `(1ULL << 30) - 1` and `(1ULL << 21) - 1`
abbrev pub giant_offset : ℕ → ℕ
giant_offset address = bit_and address (2 ^ 30 - 1)

abbrev pub large_offset : ℕ → ℕ
large_offset address = bit_and address (2 ^ 21 - 1)

-- vmm_translate, from the PT, the PD, the PDPT and the root.
unfoldable pub translate_pt : Vmm → ℕ → Ptr → Option ℕ
translate_pt s address pt =
    let pte = word s pt (pt_index address) in
    if not (is_present pte)
    then none
    else some (bit_or (bit_and pte address_mask) (bit_and address 4095))

unfoldable pub translate_pd : Vmm → Ptr → ℕ → Ptr → Option ℕ
translate_pd s pml4 address pd =
    let entry = word s pd (pd_index address) in
    if not (is_present entry)
    then none
    else if is_huge entry
    then some (bit_or (bit_and entry address_mask) (large_offset address))
    else let pt = verify_existing_child_table s entry level_pt pml4 in
      if pt == 0 then none else translate_pt s address pt

unfoldable pub translate_pdpt : Vmm → Ptr → ℕ → Ptr → Option ℕ
translate_pdpt s pml4 address pdpt =
    let entry = word s pdpt (pdpt_index address) in
    if not (is_present entry)
    then none
    else if is_huge entry
    then some (bit_or (bit_and entry address_mask) (giant_offset address))
    else let pd = verify_existing_child_table s entry level_pd pml4 in
      if pd == 0 then none else translate_pd s pml4 address pd

unfoldable pub translate : Vmm → Ptr → ℕ → Option ℕ
translate s pml4 address =
    if pml4 == 0
    then none
    else if failed (verify_page_table_root s pml4)
    then none
    else let entry = word s pml4 (pml4_index address) in
      if not (is_present entry)
      then none
      else if is_huge entry
      then none
      else let pdpt = verify_existing_child_table s entry level_pdpt pml4 in
        if pdpt == 0 then none else translate_pdpt s pml4 address pdpt

-- vmm_inspect_mapping: the physical address and the flags.
unfoldable pub inspect_pt : Vmm → ℕ → Ptr → Option (ℕ × ℕ)
inspect_pt s address pt =
    let pte = word s pt (pt_index address) in
    if not (is_present pte) then none else some (bit_and pte address_mask, bit_and pte 7)

unfoldable pub inspect_pd : Vmm → Ptr → ℕ → Ptr → Option (ℕ × ℕ)
inspect_pd s pml4 address pd =
    let entry = word s pd (pd_index address) in
    if not (is_present entry)
    then none
    else if is_huge entry
    then some (bit_or (bit_and entry address_mask) (large_offset address), bit_and entry 135)
    else let pt = verify_existing_child_table s entry level_pt pml4 in
      if pt == 0 then none else inspect_pt s address pt

unfoldable pub inspect_pdpt : Vmm → Ptr → ℕ → Ptr → Option (ℕ × ℕ)
inspect_pdpt s pml4 address pdpt =
    let entry = word s pdpt (pdpt_index address) in
    if not (is_present entry)
    then none
    else if is_huge entry
    then some (bit_or (bit_and entry address_mask) (giant_offset address), bit_and entry 135)
    else let pd = verify_existing_child_table s entry level_pd pml4 in
      if pd == 0 then none else inspect_pd s pml4 address pd

unfoldable pub inspect_mapping : Vmm → Ptr → ℕ → Option (ℕ × ℕ)
inspect_mapping s pml4 address =
    if pml4 == 0
    then none
    else if failed (verify_page_table_root s pml4)
    then none
    else let entry = word s pml4 (pml4_index address) in
      if not (is_present entry)
      then none
      else if is_huge entry
      then none
      else let pdpt = verify_existing_child_table s entry level_pdpt pml4 in
        if pdpt == 0 then none else inspect_pdpt s pml4 address pdpt

-- vmm_verify_page_table_ownership
unfoldable pub verify_pd : Vmm → Ptr → ℕ → Ptr → Status
verify_pd s pml4 address pd =
    if failed (verify_page_table_record s pd level_pd pml4)
    then err 1
    else let entry = word s pd (pd_index address) in
      if not (is_present entry)
      then err 1
      else if is_huge entry
      then ret 0
      else if failed (verify_page_table_record s (bit_and entry address_mask) level_pt pml4)
      then err 1
      else ret 0

unfoldable pub verify_pdpt : Vmm → Ptr → ℕ → Ptr → Status
verify_pdpt s pml4 address pdpt =
    if failed (verify_page_table_record s pdpt level_pdpt pml4)
    then err 1
    else let entry = word s pdpt (pdpt_index address) in
      if not (is_present entry)
      then err 1
      else if is_huge entry
      then ret 0
      else verify_pd s pml4 address (bit_and entry address_mask)

unfoldable pub verify_page_table_ownership : Vmm → Ptr → ℕ → Status
verify_page_table_ownership s pml4 address =
    if pml4 == 0
    then err 1
    else if failed (verify_page_table_record s pml4 level_pml4 pml4)
    then err 1
    else let entry = word s pml4 (pml4_index address) in
      if not (is_present entry)
      then err 1
      else if is_huge entry
      then err 1
      else verify_pdpt s pml4 address (bit_and entry address_mask)
