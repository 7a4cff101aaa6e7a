-- ===== src/Vmm/Spaces.antt =====
-- kernel/mm/vmm/vmm.c: the registry of address spaces, from vmm_create_address_space to
-- vmm_activate_address_space. A write of CR3 is read back as it was written.
use batos_os.Prelude.{
  ℕ, ◌&&◌, Bool, true, false, not, Option, none, some, List, [], ◌∷◌, ◌++◌, length, Ptr, Status,
  ret, err, failed, leb, ◌==◌, if◌then◌else◌, bit_and, find_first, update_first,
}
use batos_os.Vmm.{
  Vmm, SpaceRecord, level_pml4, address_mask, allocate_page_table, release_page_table,
  verify_page_table_root,
}

abbrev pub created : ℕ
created = 0

abbrev pub active : ℕ
active = 1

abbrev pub inactive : ℕ
inactive = 2

abbrev pub is_space : Ptr → SpaceRecord → Bool
is_space pml4 r = r.in_use && (r.pml4_physical == pml4)

abbrev pub is_free_space : SpaceRecord → Bool
is_free_space r = not r.in_use

-- A write to the record that find_address_space_record returns.
abbrev pub write_space : (SpaceRecord → SpaceRecord) → Ptr → List SpaceRecord → List SpaceRecord
write_space change pml4 rs = update_first (is_space pml4) change rs

abbrev pub with_state : ℕ → SpaceRecord → SpaceRecord
with_state state r = record r { state = state }

abbrev pub blank_space : SpaceRecord
blank_space = record { pml4_physical = 0; state = 0; in_use = false }

-- The three writes of register_address_space.
abbrev pub fresh_space : Ptr → SpaceRecord → SpaceRecord
fresh_space pml4 r = record r { pml4_physical = pml4; state = created; in_use = true }

unfoldable pub find_address_space_record : List SpaceRecord → Ptr → Option SpaceRecord
find_address_space_record rs pml4 = if pml4 == 0 then none else find_first (is_space pml4) rs

unfoldable pub register_address_space : Vmm → Ptr → Status × Vmm
register_address_space s pml4 =
    if pml4 == 0
    then (err 1, s)
    else elim (find_address_space_record s.address_space_records pml4) [
      | some r ↦ (err 1, s)
      | none ↦ elim (find_first is_free_space s.address_space_records) [
        | some r ↦ (
          ret 0,
          record s {
            address_space_records =
                update_first is_free_space (fresh_space pml4) s.address_space_records;
          },
        )
        | none ↦ if leb 256 (length s.address_space_records) then (err 1, s) else (
          ret 0,
          record s {
            address_space_records = s.address_space_records ++ fresh_space pml4 blank_space ∷ [];
          },
        )
      ]
    ]

unfoldable pub create_address_space : Vmm → Ptr × Vmm
create_address_space s =
    let (pml4, s1) = allocate_page_table s level_pml4 0 in
    if pml4 == 0
    then (0, s1)
    else let (status, s2) = register_address_space s1 pml4 in
      if failed status then (0, (release_page_table s2 pml4).1) else (pml4, s2)

-- vmm_init
unfoldable pub init : Vmm → Vmm
init s =
    let (pml4, s1) = create_address_space s in
    record s1 { kernel_pml4 = pml4; last_cloned_pml4 = 0 }

-- The result is none where vmm_get_address_space_state returns -1.
unfoldable pub get_address_space_state : Vmm → Ptr → Option ℕ
get_address_space_state s pml4 =
    if pml4 == 0 then none else elim (find_address_space_record s.address_space_records pml4) [
      | none ↦ none
      | some r ↦ some r.state
    ]

unfoldable pub verify_address_space_state : Vmm → Ptr → ℕ → Status
verify_address_space_state s pml4 expected_state = elim (get_address_space_state s pml4) [
  | none ↦ err 1
  | some state ↦ if not (state == expected_state) then err 1 else ret 0
]

abbrev pub write_cr3 : Vmm → ℕ → Vmm
write_cr3 s pml4 = record s { cr3 = pml4 }

-- The space that was active before becomes inactive.
unfoldable pub leave_previous : Vmm → Ptr → Vmm
leave_previous s pml4 =
    if not (s.active_address_space_pml4 == 0) && not (s.active_address_space_pml4 == pml4)
    then elim (find_address_space_record s.address_space_records s.active_address_space_pml4) [
      | none ↦ s
      | some previous ↦ record s {
        address_space_records =
            write_space (with_state inactive) s.active_address_space_pml4 s.address_space_records;
      }
    ]
    else s

-- The writes of vmm_activate_address_space once CR3 holds the root.
unfoldable pub enter : Vmm → Ptr → Vmm
enter s pml4 =
    let s1 = leave_previous s pml4 in
    record s1 {
      address_space_records = write_space (with_state active) pml4 s1.address_space_records;
      active_address_space_pml4 = pml4;
    }

unfoldable pub activate_address_space : Vmm → Ptr → Status × Vmm
activate_address_space s pml4 =
    if pml4 == 0
    then (err 1, s)
    else elim (find_address_space_record s.address_space_records pml4) [
      | none ↦ (err 1, s)
      | some target ↦
          if failed (verify_page_table_root s pml4)
          then (err 1, s)
          else if (s.active_address_space_pml4 == pml4) && (target.state == active)
          then (ret 0, s)
          else let s1 = write_cr3 s pml4 in
            if not (bit_and s1.cr3 address_mask == pml4)
            then (err 1, s1)
            else (ret 0, enter s1 pml4)
    ]
