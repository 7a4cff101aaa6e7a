-- ===== src/Vmm/Sections.antt =====
-- kernel/mm/vmm/vmm.c: map_kernel_section and vmm_create_kernel_address_space.
use batos_os.Prelude.{
  ℕ, zero, suc, ◌-◌, ◌/◌, ◌^◌, ◌&&◌, ◌||◌, Bool, true, false, not, List, [], ◌∷◌, Ptr, Status, ret,
  err, failed, leb, ltb, ◌==◌, if◌then◌else◌, add_u64, sub_u64,
}
use batos_os.Pmm.{align_down, align_up, is_aligned}
use batos_os.Vmm.{Vmm}
use batos_os.Vmm.Map.{map_page}
use batos_os.Vmm.Spaces.{create_address_space}
use batos_os.Vmm.Tree.{destroy_address_space}

-- What kernel/boot/boot.c says of the kernel's image.
pub record Image : Type 0 where
  pub virtual_base : ℕ
  pub physical_base : ℕ
  pub image_size : ℕ
  pub text_start : ℕ
  pub text_end : ℕ
  pub rodata_start : ℕ
  pub rodata_end : ℕ
  pub data_start : ℕ
  pub data_end : ℕ
  pub bss_start : ℕ
  pub bss_end : ℕ

-- The loop over the `n` pages that are left, from `address`.
unfoldable pub map_pages : Vmm → Ptr → ℕ → ℕ → ℕ → ℕ → ℕ → Status × Vmm
map_pages s pml4 virtual_base physical_base flags address zero = (ret 0, s)
map_pages s pml4 virtual_base physical_base flags address (suc n) =
    let offset = sub_u64 address virtual_base in
    if ltb (2 ^ 64 - 1 - physical_base) offset
    then (err 1, s)
    else let (status, s1) = map_page s (record {
      pml4 = pml4;
      virtual_address = address;
      physical_address = add_u64 physical_base offset;
      flags = flags;
    }) in
      elim (failed status) [
        | true ↦ (err 1, s1)
        | false ↦ map_pages s1 pml4 virtual_base physical_base flags (add_u64 address 4096) n
      ]

-- A section's bounds and its pages' flags.
pub record Section : Type 0 where
  pub first : ℕ
  pub last : ℕ
  pub flags : ℕ

-- The loop makes one round for each page from `start` to `end`.
unfoldable pub map_kernel_section : Vmm → Ptr → Image → ℕ → Section → Status × Vmm
map_kernel_section s pml4 image image_end section =
    let start = align_down section.first in
    let end = align_up section.last in
    if leb section.last section.first
    then (ret 0, s)
    else if ltb section.first image.virtual_base || ltb image_end section.last
    then (err 1, s)
    else if ltb end section.last || ltb image_end end
    then (err 1, s)
    else map_pages s pml4 image.virtual_base image.physical_base section.flags start
        ((end - start) / 4096)

-- The five sections in the order they are mapped; writable is 2.
abbrev pub sections : Image → List Section
sections i =
    record { first = i.virtual_base; last = i.text_start; flags = 2 }
    ∷ record { first = i.text_start; last = i.text_end; flags = 0 }
    ∷ record { first = i.rodata_start; last = i.rodata_end; flags = 0 }
    ∷ record { first = i.data_start; last = i.data_end; flags = 2 }
    ∷ record { first = i.bss_start; last = i.bss_end; flags = 2 }
    ∷ []

unfoldable pub map_sections : Vmm → Ptr → Image → ℕ → List Section → Status × Vmm
map_sections s pml4 image image_end [] = (ret 0, s)
map_sections s pml4 image image_end (section ∷ rest) =
    let (status, s1) = map_kernel_section s pml4 image image_end section in
    elim (failed status) [ true ↦ (err 1, s1) | false ↦ map_sections s1 pml4 image image_end rest ]

-- The checks of the image before the address space is made.
abbrev pub is_usable_image : Image → Bool
is_usable_image i =
    not ((i.virtual_base == 0) || (i.physical_base == 0) || (i.image_size == 0))
    && is_aligned i.virtual_base
    && is_aligned i.physical_base
    && not (ltb (2 ^ 64 - 1 - i.virtual_base) i.image_size)
    && not (ltb (2 ^ 64 - 1 - 4095) (add_u64 i.virtual_base i.image_size))
    && not
        (ltb (align_up (add_u64 i.virtual_base i.image_size)) (add_u64 i.virtual_base i.image_size))

unfoldable pub create_kernel_address_space : Vmm → Image → Ptr × Vmm
create_kernel_address_space s image =
    if not (is_usable_image image)
    then (0, s)
    else let (pml4, s1) = create_address_space s in
      if pml4 == 0
      then (0, s1)
      else let image_end = align_up (add_u64 image.virtual_base image.image_size) in
        let (status, s2) = map_sections s1 pml4 image image_end (sections image) in
        if failed status then (0, (destroy_address_space s2 pml4).1) else (pml4, s2)
