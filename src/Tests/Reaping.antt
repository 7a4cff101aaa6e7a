-- ===== src/Tests/Reaping.antt =====
-- The theorems on reclamation and on membership, applied to a machine with one task that has ended.
use batos_os.Prelude.{
  ◌≡◌, refl, false, true, arith, failed, store, find_first, update_first, null, replicate, set, Mem,
  ret, err,
}
use batos_os.Ring
use batos_os.Ring.Valid
use batos_os.Ring.Valid.{empty-IsValid, push-IsValid}
use batos_os.Pmm
use batos_os.Pmm.{alloc_frame, free_frame, bitmap_set, bitmap_test, first_free}
use batos_os.Vmm.{
  word, set_word, zero_words, register_page_table, allocate_page_table, find_page_table_record,
  verify_page_table_record, verify_page_table_root, verify_existing_child_table,
  get_or_create_table,
}
use batos_os.Vmm.Map.{
  undo, map_leaf, through, map_pd, map_pdpt, map_root, map_page, unmap_page, clear_leaf,
}
use batos_os.Vmm.Walk.{translate, translate_pdpt, translate_pd, translate_pt}
use batos_os.Kernel.{Task, terminated, resume_none}
use batos_os.RunQueue
use batos_os.TaskRegistry
use batos_os.ProcessRegistry
use batos_os.ProcessRegistry.{Process, created, active}
use batos_os.Process.{Members, find_from, find_task_index, attach_task, detach_task, contains_task}
use batos_os.Process.{compact}
use batos_os.Process.Membership.{detach-attach}
use batos_os.Task.Stack.{
  stack_virtual_for, map_frames, map_stack, owns_frames, unmap_frames, unmap_stack,
}
use batos_os.Task.Create.{validate_reclaim, destroy}
use batos_os.Lifecycle.Reap.{World, preflight, leave_process, release, reap_one}
use batos_os.Lifecycle.Reclaim.{Reclaimed, reap_refuses, reap_reclaims}
use batos_os.Tests.Machine.{machine, good}
use batos_os.Tests.Stacks.{booted, region, first_task}

-- Every address holds the task, which has ended on its stack.
abbrev ended_task : Mem Task
ended_task t = record (map_stack region first_task booted).1 {
  state = terminated;
  resume_authority = resume_none;
  process = 4;
}

abbrev blank : Process
blank = record {
  id = 5;
  state = active;
  address_space = 0;
  tasks = replicate 256 null;
  task_count = 0;
}

-- The process that it belongs to.
abbrev owner : Process
owner = record blank { tasks = set (replicate 256 null) 0 1; task_count = 1 }

-- The task at 1 is registered and published, and the process at 4 is registered.
abbrev world : Mem Task → World
world tasks = record {
  machine = record {
    kernel = record (machine good) {
      tasks = tasks;
      pending = Ring.push Ring.empty 1;
      runqueue = Ring.empty;
    };
    vmm = (map_stack region first_task booted).2;
    stack_words = λ p. 0;
  };
  processes = λ p. owner;
  process_registry = (ProcessRegistry.register (λ p. owner) ProcessRegistry.init.1 4).1;
}

reclaims : (reap_one (world ended_task)).0 ≡ ret 0
unfolding ProcessRegistry.contains ProcessRegistry.register ProcessRegistry.init
    ProcessRegistry.holds contains_task detach_task find_task_index find_from compact reap_one
    preflight release leave_process destroy validate_reclaim owns_frames unmap_frames unmap_stack
    unmap_page clear_leaf free_frame translate translate_pdpt translate_pd translate_pt Ring.push
    Ring.empty Ring.front Ring.find Ring.find_from RunQueue.contains TaskRegistry.contains
    TaskRegistry.register TaskRegistry.unregister TaskRegistry.init map_stack stack_virtual_for
    map_frames map_page map_root map_pdpt map_pd map_leaf through undo get_or_create_table
    allocate_page_table register_page_table verify_page_table_root verify_page_table_record
    verify_existing_child_table find_page_table_record find_first update_first word set_word
    zero_words store alloc_frame first_free bitmap_set bitmap_test Pmm.init Pmm.highest_address
    Pmm.find_bitmap_location Pmm.bitmap_set_range Pmm.free_usable Pmm.free_entry
    Pmm.bitmap_clear_range Pmm.fill Pmm.bitmap_clear
reclaims = refl

pending-IsValid : Ring.Valid.IsValid (Ring.push Ring.empty 1)
unfolding Ring.empty
pending-IsValid = push-IsValid 1 empty-IsValid (omega arith)

reap_reclaims_example :
    Reclaimed
      (world ended_task)
      (Ring.front (Ring.push Ring.empty 1))
      (reap_one (world ended_task)).1
reap_reclaims_example = reap_reclaims (world ended_task) pending-IsValid reclaims

refuses : (reap_one (world good)).0 ≡ err 3
unfolding reap_one preflight Ring.push Ring.empty Ring.front
refuses = refl

reap_refuses_example : (reap_one (world good)).1 ≡ world good
reap_refuses_example = reap_refuses (world good) 3 refuses (omega arith)

-- A registered process at 4, and a task at 1.
abbrev members : Members
members = record {
  processes = λ p. blank;
  registry = (ProcessRegistry.register (λ p. blank) ProcessRegistry.init.1 4).1;
  tasks = good;
}

attaches : failed (attach_task members 4 1).0 ≡ false
unfolding attach_task find_task_index find_from ProcessRegistry.contains ProcessRegistry.register
    ProcessRegistry.init ProcessRegistry.holds
attaches = refl

detach-attach_example :
    (contains_task (attach_task members 4 1).1 4 1 ≡ true)
    × (detach_task (attach_task members 4 1).1 4 1 ≡ (ret 0, members))
detach-attach_example = detach-attach members 4 1 attaches refl refl
