-- ===== src/Tests/Paging.antt =====
-- The theorems on page tables, applied to a manager that has one root and maps a page of it.
use batos_os.Prelude.{
  ℕ, ◌+◌, ◌%◌, ◌^◌, ◌≡◌, refl, true, false, [], ◌∷◌, some, arith, store, failed, find_first,
  update_first, Ptr,
}
use batos_os.Pmm
use batos_os.Pmm.{Pmm, alloc_frame, free_frame, bitmap_set, bitmap_test, first_free}
use batos_os.Pmm.Build.{bitmap_frames}
use batos_os.Vmm.{
  Vmm, word, set_word, zero_words, register_page_table, allocate_page_table, find_page_table_record,
  verify_page_table_record, verify_page_table_root, verify_existing_child_table,
  get_or_create_table,
}
use batos_os.Vmm.Map.{
  Request, undo, map_leaf, through, map_pd, map_pdpt, map_root, map_page, unmap_page,
}
use batos_os.Vmm.Walk.{translate}
use batos_os.Vmm.Valid.{IsValid, empty-IsValid}
use batos_os.Vmm.Alloc.{allocate_page_table-IsValid}
use batos_os.Vmm.Trips.{map_page-IsValid, map-translate}
use batos_os.Vmm.Keeps.{map_keeps, map_transacts}
use batos_os.Vmm.Unmapped.{Unmapped, unmap_page_unmaps, unmap-map}
use batos_os.Vmm.Spaces.{get_address_space_state, find_address_space_record, activate_address_space}
use batos_os.Vmm.Active.{OneActive, activate_one}
use batos_os.Tests.Memory.{pmm, valid}

abbrev empty : Vmm
empty = record {
  pmm = pmm;
  words = λ p. 0;
  page_table_records = [];
  validation_epoch = 0;
  kernel_pml4 = 0;
  last_cloned_pml4 = 0;
  address_space_records = [];
  active_address_space_pml4 = 0;
  cr3 = 0;
  invalidated = [];
}

total : pmm.total_frames ≡ 256
unfolding Pmm.build bitmap_set bitmap_test store Pmm.init Pmm.highest_address
    Pmm.find_bitmap_location Pmm.bitmap_set_range Pmm.free_usable Pmm.free_entry
    Pmm.bitmap_clear_range Pmm.fill Pmm.bitmap_clear
total = refl

empty_valid : IsValid (bitmap_frames pmm) empty
empty_valid = empty-IsValid empty valid (omega (arith, total)) refl

abbrev pub rooted : Vmm
rooted = (allocate_page_table empty 3 0).1

abbrev pub root : Ptr
root = (allocate_page_table empty 3 0).0

pub rooted_valid : IsValid (bitmap_frames pmm) rooted
rooted_valid = allocate_page_table-IsValid empty empty_valid 3 0

abbrev request : Request
request = record {
  pml4 = root;
  virtual_address = 0x4000_0000;
  physical_address = 0x9_0000;
  flags = 2;
}

works : failed (map_page rooted request).0 ≡ false
unfolding map_page map_root map_pdpt map_pd map_leaf through undo get_or_create_table
    allocate_page_table register_page_table verify_page_table_root verify_page_table_record
    verify_existing_child_table find_page_table_record find_first update_first word set_word
    zero_words store alloc_frame first_free bitmap_set bitmap_test Pmm.init Pmm.highest_address
    Pmm.find_bitmap_location Pmm.bitmap_set_range Pmm.free_usable Pmm.free_entry
    Pmm.bitmap_clear_range Pmm.fill Pmm.bitmap_clear
works = refl

map-translate_example :
    translate (map_page rooted request).1 root (0x4000_0000 + 291) ≡ some (0x9_0000 % 2 ^ 52 + 291)
map-translate_example = map-translate request 291 rooted_valid works (omega arith)

unmap-map_example :
    (unmap_page (map_page rooted request).1 root 0x4000_0000).0 ≡ some (0x9_0000 % 2 ^ 52)
unmap-map_example = unmap-map request rooted_valid works

abbrev mapped : Vmm
mapped = (map_page rooted request).1

map_page-IsValid_example : IsValid (bitmap_frames pmm) (map_page rooted request).1
map_page-IsValid_example = map_page-IsValid request rooted_valid

mapped_valid : IsValid (bitmap_frames pmm) mapped
mapped_valid = map_page-IsValid request rooted_valid

-- The next page of the same PT.
abbrev second : Request
second = record {
  pml4 = root;
  virtual_address = 0x4000_1000;
  physical_address = 0x9_1000;
  flags = 0;
}

map_keeps_example :
    translate (map_page mapped second).1 root (0x4000_0000 + 291) ≡ some (0x9_0000 % 2 ^ 52 + 291)
map_keeps_example =
    map_keeps second root (0x4000_0000 + 291) mapped_valid
      (map-translate request 291 rooted_valid works (omega arith))

unmap_page_unmaps_example :
    Unmapped
      (bitmap_frames pmm)
      mapped
      root
      0x4000_0000
      (0x9_0000 % 2 ^ 52)
      (unmap_page mapped root 0x4000_0000).1
unmap_page_unmaps_example =
    unmap_page_unmaps root 0x4000_0000 (0x9_0000 % 2 ^ 52) mapped_valid
      (unmap-map request rooted_valid works)

-- The page is mapped already.
remap_fails : failed (map_page mapped request).0 ≡ true
unfolding map_page map_root map_pdpt map_pd map_leaf through undo get_or_create_table
    allocate_page_table register_page_table verify_page_table_root verify_page_table_record
    verify_existing_child_table find_page_table_record find_first update_first word set_word
    zero_words store alloc_frame first_free bitmap_set bitmap_test Pmm.init Pmm.highest_address
    Pmm.find_bitmap_location Pmm.bitmap_set_range Pmm.free_usable Pmm.free_entry
    Pmm.bitmap_clear_range Pmm.fill Pmm.bitmap_clear
remap_fails = refl

map_transacts_example :
    ((map_page mapped request).1.pmm ≡ mapped.pmm)
    × ((p : Ptr)
        → find_page_table_record (map_page mapped request).1 p ≡ find_page_table_record mapped p)
    × ((pml4 a : ℕ) → translate (map_page mapped request).1 pml4 a ≡ translate mapped pml4 a)
map_transacts_example = map_transacts request mapped_valid remap_fails

-- Two address spaces, of which the second is active.
abbrev two : Vmm
two = record empty {
  page_table_records =
      record {
        physical_address = 0x5000;
        owner_pml4 = 0x5000;
        validation_epoch = 0;
        level = 3;
        in_use = true;
      }
      ∷ [];
  address_space_records =
      record { pml4_physical = 0x5000; state = 0; in_use = true }
      ∷ record { pml4_physical = 0x7000; state = 1; in_use = true }
      ∷ [];
  active_address_space_pml4 = 0x7000;
  cr3 = 0x7000;
}

two_one : OneActive two
unfolding get_address_space_state find_address_space_record find_first
two_one q h = ground arith

activate_one_example :
    let (status, t) = activate_address_space two 0x5000 in
    OneActive t
    × (failed status ≡ false
        → (get_address_space_state t 0x5000 ≡ some 1) × (t.active_address_space_pml4 ≡ 0x5000))
    × (failed status ≡ true → t.address_space_records ≡ two.address_space_records)
activate_one_example = activate_one two 0x5000 two_one

-- The call works.
activated : failed (activate_address_space two 0x5000).0 ≡ false
unfolding activate_address_space find_address_space_record find_first verify_page_table_root
    verify_page_table_record find_page_table_record
activated = refl
