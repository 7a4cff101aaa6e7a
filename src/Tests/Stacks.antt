-- ===== src/Tests/Stacks.antt =====
-- The theorems on kernel stacks, applied to a machine whose kernel has one root and no tasks yet.
use batos_os.Prelude.{
  ℕ, ◌+◌, ◌≤◌, ◌≡◌, ◌⊎◌, ◌↔◌, ◌<◌, refl, false, true, none, ◌≢◌, arith, failed, store, find_first,
  update_first,
}
use batos_os.Pmm
use batos_os.Pmm.{alloc_frame, free_frame, bitmap_set, bitmap_test, first_free, bitmap_clear}
use batos_os.Pmm.Build.{bitmap_frames}
use batos_os.Vmm.{
  Vmm, word, set_word, zero_words, register_page_table, allocate_page_table, find_page_table_record,
  verify_page_table_record, verify_page_table_root, verify_existing_child_table,
  get_or_create_table,
}
use batos_os.Vmm.Map.{
  undo, map_leaf, through, map_pd, map_pdpt, map_root, map_page, unmap_page, clear_leaf,
}
use batos_os.Vmm.Walk.{translate, translate_pdpt, translate_pd, translate_pt}
use batos_os.Vmm.Valid.{IsValid, Unchanged-IsValid}
use batos_os.Vmm.Alloc.{find_same, word_same}
use batos_os.Kernel.{Task}
use batos_os.Task.Stack.{
  Region, stack_virtual_for, map_frames, roll_back, map_stack, stack_size, guard_size,
}
use batos_os.Task.Create.{Machine, fresh, create, complete, prepare_context, prepare_first_run}
use batos_os.Task.Regions.{stacks_apart}
use batos_os.Task.Maps.{HasStack, map_stack_maps}
use batos_os.Task.Created.{Created, create_creates}
use batos_os.Tests.Paging.{rooted, root, rooted_valid}
use batos_os.Task.{transition}
use batos_os.Tests.Memory.{pmm}
use batos_os.Tests.Machine.{machine, good}

abbrev pub booted : Vmm
booted = record rooted { kernel_pml4 = root }

booted_valid : IsValid (bitmap_frames pmm) booted
booted_valid = Unchanged-IsValid rooted_valid (record {
  pmm = refl;
  unique = rooted_valid.unique;
  found = λ q. find_same rooted booted q refl;
  words = λ q r i f lt. word_same rooted booted q i refl;
  spaces = refl;
  active = refl;
})

abbrev pub region : Region
region = record { start = 0x4000_0000; end = 0x4050_0000 }

stacks_apart_example :
    (region.start + guard_size ≤ stack_virtual_for region 1)
    × (stack_virtual_for region 1 + stack_size + guard_size ≤ stack_virtual_for region 256)
    × (stack_virtual_for region 256 + stack_size ≤ region.end)
    × ((k : ℕ) → ((k ≡ 0) ⊎ (256 < k)) ↔ (stack_virtual_for region k ≡ 0))
stacks_apart_example =
    stacks_apart region 1 256 (refl, omega arith) (omega arith) (omega arith) (omega arith)

abbrev pub first_task : Task
first_task = fresh 1 root 0x9000 0

maps : failed (map_stack region first_task booted).0 ≡ false
unfolding map_stack stack_virtual_for map_frames map_page map_root map_pdpt map_pd map_leaf through
    undo get_or_create_table allocate_page_table register_page_table verify_page_table_root
    verify_page_table_record verify_existing_child_table find_page_table_record find_first
    update_first word set_word zero_words store alloc_frame first_free bitmap_set bitmap_test
    Pmm.init Pmm.highest_address Pmm.find_bitmap_location Pmm.bitmap_set_range Pmm.free_usable
    Pmm.free_entry Pmm.bitmap_clear_range Pmm.fill Pmm.bitmap_clear
maps = refl

map_stack_maps_example :
    HasStack
      (bitmap_frames pmm)
      region
      (map_stack region first_task booted).1
      booted
      (map_stack region first_task booted).2
map_stack_maps_example = map_stack_maps region first_task booted_valid maps

abbrev kernel_with_root : Machine
kernel_with_root = record { kernel = machine good; vmm = booted; stack_words = λ p. 0 }

creates : failed (create region kernel_with_root 0x8000 1 root 0x9000 0).0 ≡ false
unfolding create complete prepare_context prepare_first_run transition map_stack stack_virtual_for
    map_frames map_page map_root map_pdpt map_pd map_leaf through undo get_or_create_table
    allocate_page_table register_page_table verify_page_table_root verify_page_table_record
    verify_existing_child_table find_page_table_record find_first update_first word set_word
    zero_words store alloc_frame first_free bitmap_set bitmap_test Pmm.init Pmm.highest_address
    Pmm.find_bitmap_location Pmm.bitmap_set_range Pmm.free_usable Pmm.free_entry
    Pmm.bitmap_clear_range Pmm.fill Pmm.bitmap_clear
creates = refl

create_creates_example :
    Created
      (bitmap_frames pmm)
      region
      kernel_with_root
      0x8000
      1
      root
      (create region kernel_with_root 0x8000 1 root 0x9000 0).1
create_creates_example =
    create_creates region 0x8000 1 root 0x9000 0 booted_valid (refl, omega arith) refl creates

-- A second task of the same identifier is refused, and the first one's stack is gone.
second_evicts :
    let first = map_stack region first_task booted in
    let second = map_stack region first_task first.2 in
    (failed second.0 ≡ true)
    × (translate first.2 root first.1.kernel_stack_base ≢ none)
    × (translate second.2 root first.1.kernel_stack_base ≡ none)
unfolding roll_back unmap_page clear_leaf free_frame translate translate_pdpt translate_pd
    translate_pt map_stack stack_virtual_for map_frames map_page map_root map_pdpt map_pd map_leaf
    through undo get_or_create_table allocate_page_table register_page_table verify_page_table_root
    verify_page_table_record verify_existing_child_table find_page_table_record find_first
    update_first word set_word zero_words store alloc_frame first_free bitmap_set bitmap_test
    Pmm.init Pmm.highest_address Pmm.find_bitmap_location Pmm.bitmap_set_range Pmm.free_usable
    Pmm.free_entry Pmm.bitmap_clear_range Pmm.fill Pmm.bitmap_clear
second_evicts = (refl, λ e. ground arith, refl)
