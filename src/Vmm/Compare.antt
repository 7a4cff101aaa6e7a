-- ===== src/Vmm/Compare.antt =====
-- kernel/mm/vmm/vmm.c: the checks of a copied hierarchy, vmm_inspect_address_space,
-- vmm_verify_recursive_clone and vmm_verify_clone. Their results other than 0 are errors.
use batos_os.Prelude.{
  ℕ, zero, suc, ◌+◌, ◌-◌, ◌*◌, ◌^◌, ◌&&◌, ◌||◌, Bool, not, Option, none, some, Ptr, Status, ret,
  err, failed, ◌==◌, if◌then◌else◌, bit_and,
}
use batos_os.Vmm.{
  Vmm, page_table_entries, address_mask, is_present, is_huge, word, pml4_index, pdpt_index,
  pd_index, pt_index,
}

-- The entries of a PML4 that are present, of the `n` from `index`.
unfoldable pub count_present : Vmm → Ptr → ℕ → ℕ → ℕ
count_present s pml4 index zero = 0
count_present s pml4 index (suc n) =
    let rest = count_present s pml4 (suc index) n in
    if is_present (word s pml4 index) then suc rest else rest

unfoldable pub inspect_address_space : Vmm → Ptr → Option ℕ
inspect_address_space s pml4 =
    if pml4 == 0 then none else some (count_present s pml4 0 page_table_entries)

abbrev pub frame_of : ℕ → ℕ
frame_of entry = bit_and entry address_mask

abbrev pub flags_of : ℕ → ℕ
flags_of entry = bit_and entry (2 ^ 64 - 1 - address_mask)

-- Two tables of one level must be two frames.
abbrev pub apart : Ptr → Ptr → Bool
apart source cloned = not (source == 0) && not (cloned == 0) && not (source == cloned)

-- The last step of vmm_verify_recursive_clone, at the PTs.
unfoldable pub same_leaf : ℕ → ℕ → Status
same_leaf source cloned =
    if not (is_present source) || not (is_present cloned)
    then err 1
    else if not (frame_of source == frame_of cloned)
    then err 1
    else if not (flags_of source == flags_of cloned)
    then err 1
    else ret 0

-- A PDPT's or a PD's step: two leaves that are the same, or two tables for the rest.
unfoldable pub same_step : ℕ → ℕ → (Ptr → Ptr → Status) → Status
same_step source cloned rest =
    if not (is_present source) || not (is_present cloned)
    then err 1
    else if is_huge source
    then (if not (is_huge cloned) then err 1 else if not (cloned == source) then err 1 else ret 0)
    else if is_huge cloned
    then err 1
    else if not (apart (frame_of source) (frame_of cloned))
    then err 1
    else rest (frame_of source) (frame_of cloned)

unfoldable pub verify_recursive_clone : Vmm → Ptr → Ptr → ℕ → Status
verify_recursive_clone s source cloned address =
    if not (apart source cloned)
    then err 1
    else let source_entry = word s source (pml4_index address) in
      let cloned_entry = word s cloned (pml4_index address) in
      if not (is_present source_entry) || not (is_present cloned_entry)
      then err 1
      else if is_huge source_entry || is_huge cloned_entry
      then err 1
      else if not (apart (frame_of source_entry) (frame_of cloned_entry))
      then err 1
      else same_step (word s (frame_of source_entry) (pdpt_index address))
          (word s (frame_of cloned_entry) (pdpt_index address))
          λ pd pd'.
            same_step (word s pd (pd_index address)) (word s pd' (pd_index address))
              λ pt pt'. same_leaf (word s pt (pt_index address)) (word s pt' (pt_index address))

-- `entry & ~VMM_HARDWARE_MANAGED_BITS`
abbrev pub software_bits : ℕ → ℕ
software_bits entry = bit_and entry (2 ^ 64 - 1 - 96)

-- The error of verify_clone_level at an entry: its kind, level and index in one number.
abbrev pub clone_error : ℕ → ℕ → ℕ → Status
clone_error kind level index = err (kind * 1000000 + (level + 1) * 10000 + index)

-- The loop of verify_clone_level over the entries that are left; `below` compares two children, and
-- is none at the level of PTs.
unfoldable pub verify_entries : Vmm → Option (Ptr → Ptr → Status) → ℕ → Ptr → Ptr → ℕ → ℕ → Status
verify_entries s below level source destination index zero = ret 0
verify_entries s below level source destination index (suc n) =
    let a = word s source index in
    let b = word s destination index in
    let rest = verify_entries s below level source destination (suc index) n in
    if not (is_present a)
    then (if is_present b then clone_error 1 level index else rest)
    else if is_huge a
    then (if not (b == a) then clone_error 2 level index else rest)
    else if not (is_present b)
    then clone_error 3 level index
    else elim below [
      | none ↦ if not (software_bits b == software_bits a) then clone_error 4 level index else rest
      | some compare_below ↦
          if (frame_of a == 0) || (frame_of b == 0)
          then clone_error 5 level index
          else if frame_of a == frame_of b
          then clone_error 6 level index
          else let result = compare_below (frame_of a) (frame_of b) in
            if failed result then result else rest
    ]

-- The guards of verify_clone_level before the loop.
abbrev pub guarded : Ptr → Ptr → Status → Status
guarded source destination loop =
    if (source == 0) || (destination == 0)
    then err 1000000
    else if source == destination
    then err 1000002
    else loop

unfoldable pub verify_clone_level : Vmm → ℕ → Ptr → Ptr → Status
verify_clone_level s zero source destination =
    let loop = verify_entries s none 0 source destination 0 page_table_entries in
    guarded source destination loop
verify_clone_level s (suc level) source destination =
    let loop =
      verify_entries s (some (verify_clone_level s level)) (suc level) source destination 0
        page_table_entries in
    guarded source destination loop

unfoldable pub verify_clone : Vmm → Ptr → Ptr → Status
verify_clone s source cloned =
    if not (apart source cloned) then err 1 else verify_clone_level s 3 source cloned
