-- ===== src/Tests/Admission.antt =====
-- The theorems on the admission of tasks, applied to a machine whose kernel has one root.
use batos_os.Prelude.{
  ◌≡◌, refl, false, failed, store, find_first, update_first, replicate, null, [], ◌∷◌, true,
}
use batos_os.Ring
use batos_os.Ring.Valid.{empty-IsValid}
use batos_os.Pmm
use batos_os.Pmm.{alloc_frame, bitmap_set, bitmap_test, first_free}
use batos_os.Vmm.{
  word, set_word, zero_words, register_page_table, allocate_page_table, find_page_table_record,
  verify_page_table_record, verify_page_table_root, verify_existing_child_table,
  get_or_create_table,
}
use batos_os.Vmm.Map.{undo, map_leaf, through, map_pd, map_pdpt, map_root, map_page}
use batos_os.Vmm.Spaces.{get_address_space_state, find_address_space_record}
use batos_os.RunQueue
use batos_os.Scheduler
use batos_os.TaskRegistry
use batos_os.ProcessRegistry
use batos_os.ProcessRegistry.{Process, active}
use batos_os.Process
use batos_os.Process.{new_process, find_from, find_task_index, attach_task}
use batos_os.Task.{transition}
use batos_os.Task.Stack.{stack_virtual_for, map_frames, map_stack}
use batos_os.Task.Create.{create, complete, prepare_context, prepare_first_run}
use batos_os.Lifecycle.Reap.{World, kernel_of}
use batos_os.Execution.{publish, create_task, create_kernel_task}
use batos_os.Execution.Admission.{Published}
use batos_os.Execution.Published.{create_task_publishes, create_kernel_task_publishes}
use batos_os.Tests.Paging.{root}
use batos_os.Tests.Machine.{machine, good}
use batos_os.Tests.Stacks.{booted, region}

abbrev host : Process
host = record {
  id = 5;
  state = active;
  address_space = root;
  tasks = replicate 256 null;
  task_count = 0;
}

-- No task is registered yet, the process at 4 is, and the root's address space is ACTIVE.
abbrev world : World
world = record {
  machine = record {
    kernel = record (machine good) { runqueue = Ring.empty; registry = TaskRegistry.init.1 };
    vmm = record booted {
      address_space_records = record { pml4_physical = root; state = 1; in_use = true } ∷ [];
    };
    stack_words = λ p. 0;
  };
  processes = λ p. host;
  process_registry = (ProcessRegistry.register (λ p. host) ProcessRegistry.init.1 4).1;
}

creates : failed (create_task region world 4 0x8000 1 root 0x9000 0).0 ≡ false
unfolding create_task publish attach_task find_task_index find_from ProcessRegistry.contains
    ProcessRegistry.register ProcessRegistry.init ProcessRegistry.holds create complete
    prepare_context prepare_first_run transition Scheduler.add Scheduler.enqueue RunQueue.enqueue
    RunQueue.contains Ring.push Ring.empty Ring.find Ring.find_from TaskRegistry.register
    TaskRegistry.init TaskRegistry.contains map_stack stack_virtual_for map_frames map_page map_root
    map_pdpt map_pd map_leaf through undo get_or_create_table allocate_page_table
    register_page_table verify_page_table_root verify_page_table_record verify_existing_child_table
    find_page_table_record find_first update_first word set_word zero_words store alloc_frame
    first_free bitmap_set bitmap_test Pmm.init Pmm.highest_address Pmm.find_bitmap_location
    Pmm.bitmap_set_range Pmm.free_usable Pmm.free_entry Pmm.bitmap_clear_range Pmm.fill
    Pmm.bitmap_clear
creates = refl

create_task_publishes_example :
    Published (kernel_of world) host 4 0x8000 (create_task region world 4 0x8000 1 root 0x9000 0).1
create_task_publishes_example =
    create_task_publishes region world 4 0x8000 1 root 0x9000 0 empty-IsValid refl creates

-- The same machine without processes.
abbrev bare : World
bare = record world { process_registry = ProcessRegistry.init.1 }

creates_process : failed (create_kernel_task region bare 4 0x8000 7 1 root 0x9000 0).0 ≡ false
unfolding create_kernel_task Process.create Process.publish Process.transition
    ProcessRegistry.find_by_address_space ProcessRegistry.find_space get_address_space_state
    find_address_space_record publish attach_task find_task_index find_from ProcessRegistry.contains
    ProcessRegistry.register ProcessRegistry.init ProcessRegistry.holds create complete
    prepare_context prepare_first_run transition Scheduler.add Scheduler.enqueue RunQueue.enqueue
    RunQueue.contains Ring.push Ring.empty Ring.find Ring.find_from TaskRegistry.register
    TaskRegistry.init TaskRegistry.contains map_stack stack_virtual_for map_frames map_page map_root
    map_pdpt map_pd map_leaf through undo get_or_create_table allocate_page_table
    register_page_table verify_page_table_root verify_page_table_record verify_existing_child_table
    find_page_table_record find_first update_first word set_word zero_words store alloc_frame
    first_free bitmap_set bitmap_test Pmm.init Pmm.highest_address Pmm.find_bitmap_location
    Pmm.bitmap_set_range Pmm.free_usable Pmm.free_entry Pmm.bitmap_clear_range Pmm.fill
    Pmm.bitmap_clear
creates_process = refl

create_kernel_task_publishes_example :
    Published
      (kernel_of bare)
      (record (new_process 7 root) { state = active })
      4
      0x8000
      (create_kernel_task region bare 4 0x8000 7 1 root 0x9000 0).1
create_kernel_task_publishes_example =
    create_kernel_task_publishes region bare 4 0x8000 7 1 root 0x9000 0 empty-IsValid
      creates_process
