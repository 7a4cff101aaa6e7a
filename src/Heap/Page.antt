-- ===== src/Heap/Page.antt =====
-- kernel/mm/heap/heap.c: the page that the heap maps at the end of the kernel's image.
use batos_os.Prelude.{
  ℕ, ◌||◌, Bool, true, false, not, Option, none, some, Status, ret, err, failed, ◌==◌,
  if◌then◌else◌,
}
use batos_os.Pmm.{alloc_frame, free_frame}
use batos_os.Vmm.{Vmm}
use batos_os.Vmm.Map.{Request, map_page, unmap_page}
use batos_os.Vmm.Walk.{translate}

-- The three static variables of the page, and the address that the linker gives it.
pub record Page : Type 0 where
  pub virtual_page : ℕ
  pub physical : ℕ
  pub virtual_address : ℕ
  pub mapped : Bool

abbrev request : Vmm → Page → ℕ → Request
request s p physical = record {
  pml4 = s.kernel_pml4;
  virtual_address = p.virtual_page;
  physical_address = physical;
  flags = 2;
}

-- A translation that is not the frame: the mapping and the frame are given back.
unfoldable pub back_out : Vmm → Page → ℕ → Vmm
back_out s p physical =
    let (unmapped, s1) = unmap_page s s.kernel_pml4 p.virtual_page in
    elim unmapped [
      | none ↦ s1
      | some frame ↦ if frame == physical then record s1 { pmm = free_frame s1.pmm frame } else s1
    ]

-- Whether vmm_translate gives the address.
abbrev pub translates_to : Option ℕ → ℕ → Bool
translates_to none physical = false
translates_to (some x) physical = x == physical

abbrev pub is_mapped : Option ℕ → Bool
is_mapped none = false
is_mapped (some x) = true

unfoldable pub dynamic_page_acquire : Vmm → Page → ℕ × (Vmm × Page)
dynamic_page_acquire s p =
    if p.mapped
    then (0, (s, p))
    else if is_mapped (translate s s.kernel_pml4 p.virtual_page)
    then (0, (s, p))
    else let (physical, pmm) = alloc_frame s.pmm in
      let s1 : Vmm = record s { pmm = pmm } in
      if physical == 0
      then (0, (s1, p))
      else let (status, s2) = map_page s1 (request s1 p physical) in
        if failed status
        then (0, (record s2 { pmm = free_frame s2.pmm physical }, p))
        else if not (translates_to (translate s2 s2.kernel_pml4 p.virtual_page) physical)
        then (0, (back_out s2 p physical, p))
        else (
          p.virtual_page,
          (s2, record p { physical = physical; virtual_address = p.virtual_page; mapped = true }),
        )

unfoldable pub dynamic_page_release : Vmm → Page → ℕ → Status × (Vmm × Page)
dynamic_page_release s p address =
    if not p.mapped || not (address == p.virtual_address)
    then (err 1, (s, p))
    else let (unmapped, s1) = unmap_page s s.kernel_pml4 address in
      elim unmapped [
        | none ↦ (err 1, (s1, p))
        | some frame ↦ if not (frame == p.physical) then (err 1, (s1, p)) else (
          ret 0,
          (
            record s1 { pmm = free_frame s1.pmm frame },
            record p { physical = 0; virtual_address = 0; mapped = false },
          ),
        )
      ]
