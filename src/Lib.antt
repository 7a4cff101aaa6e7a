-- ===== src/Lib.antt =====
-- The scheduling core and the memory managers of BATOS, a kernel for x86-64 in C.
--
-- The parts and how they interact. A task is in one of six states (kernel/sched/task.h). A READY task
-- that is admitted stands in the run queue, a ring of pointers in static variables
-- (kernel/sched/runqueue.c). A BLOCKED one stands in a wait queue, a ring in a structure in memory
-- (kernel/sched/wait_queue.c), and points back at it. The current task is RUNNING. The scheduler
-- (kernel/sched/scheduler.c) moves tasks between these owners and hands the processor to a
-- continuation, a saved context or an interrupt frame, through
-- kernel/arch/x86_64/sched/dispatch.c and switch.asm. task_block and task_wake (kernel/sched/task.c)
-- join it to the wait queues, the timer interrupt (kernel/arch/x86_64/sched/preempt.c) takes the
-- processor from a running task, and a task that ends (task_bootstrap_entry) goes to the ring of
-- tasks to be reclaimed (kernel/lifecycle/lifecycle.c), if it is managed. The registry
-- (kernel/sched/task_registry.c) finds tasks by identifier, and kernel/process/process_registry.c
-- finds processes, which own tasks (kernel/process/process.c). task_create maps a kernel stack for a
-- task, and lifecycle_reap_one takes the oldest ended task out of its process and the registry and
-- unmaps its stack. kernel/execution/execution.c makes a task, registers it, gives it to a process and
-- to the scheduler, or undoes all that. The memory manager (kernel/mm/pmm/pmm.c)
-- hands out physical frames from a bitmap. The virtual memory manager (kernel/mm/vmm/vmm.c) builds
-- four levels of page tables in such frames, of which it keeps a registry, and the address spaces
-- whose roots they are. The heap (kernel/mm/heap/heap.c) cuts a static arena into linked blocks.
--
-- Files.
-- Prelude: tests, lists, pointers, 64-bit words, C statuses, memory, and tables with free slots.
-- Ring: the ring that the run queue, the wait queues and the reclamation ring share. Its children say
--   when it is well-formed and which list it stands for, and treat the search and the removal.
-- Kernel: all the state in one record. Kernel/Irq: kernel/arch/x86_64/interrupt/irq_state.c.
-- RunQueue: runqueue_init, contains, enqueue, peek, dequeue, remove, count. RunQueue/Fifo is the
--   specification, a list, and RunQueue/Refine the refinement.
-- WaitQueue: wait_queue_init and so on, with the same names.
-- Task: task_transition, task_set_exit_handler, task_exit. Task/Stack: the mapping of kernel stacks.
--   Task/Create: task_create, task_validate_reclaim, task_destroy, and the frame of a first run. Its
--   other children treat the region of the stacks, their pages, the task that is made, and a stack
--   that is taken apart.
-- Dispatch: x86_64_scheduler_resolve_target and x86_64_scheduler_dispatch, with the switch.
-- Scheduler: scheduler_init, start, add, yield, block_current, exit_current. What yield and the
--   takeovers do from their commitment on is a definition of its own, as are the rollbacks.
-- Preempt: x86_64_preempt_handle_timer and scheduler_preempt_current.
-- Blocking: task_block and task_wake.
-- Lifecycle: lifecycle_init, publish_terminated_task, contains_pending, pending_count, and the end of
--   task_bootstrap_entry. Lifecycle/Reap: lifecycle_reap_one; Lifecycle/Owners
--   and Lifecycle/Reclaim: what it releases and leaves.
-- Process: kernel/process/process.c, by the same names; Process/Membership and Process/Table: its tasks.
-- Execution: kernel/execution/execution.c, over the world of Lifecycle/Reap; Execution/Admission: what
--   its last calls have done; Execution/Published: what a whole admission has done.
-- ProcessRegistry: kernel/process/process_registry.c, by the same names.
-- TaskRegistry: task_registry_init, register, contains, unregister, find, count.
-- Ownership: the invariant that ties a task's state to its owner.
-- System: nine calls as steps of a transition system, and what holds in every reachable state. The
--   header of the file says which calls, on which terms.
-- Pmm: pmm_init, pmm_alloc_frame, pmm_free_frame, pmm_is_physical_range_valid, and the loops over the
--   bitmap. Its children treat bits, frames, the count, and the memory map.
-- Vmm: the state of vmm.c, register_page_table, allocate_page_table, get_or_create_table and
--   rollback_page_table. Vmm/Map: vmm_map_page, of which `through` is one level with its rollback, and
--   vmm_unmap_page. Vmm/Walk: vmm_translate, vmm_inspect_mapping, vmm_verify_page_table_ownership.
--   Vmm/Spaces: the address spaces. Vmm/Tree, Vmm/Clone, Vmm/Compare: the destruction, the copies and
--   the checks of hierarchies. Vmm/Sections: vmm_create_kernel_address_space. The other children treat
--   records, words, and the operations one by one.
-- Heap: heap_init, kmalloc and kfree. Heap/Cells is the specification, a list of cells; Heap/Chain says
--   which list the blocks in memory stand for, Heap/Take to Heap/Release that each call does what its
--   specification does. Heap/Page: heap_dynamic_page_acquire and heap_dynamic_page_release.
-- Tests: concrete machines.
--
-- Conventions. A pointer is a number, NULL is 0, and memory is a function of the address. A call that
-- changes state returns the new state. A status -n is `err n`. A call that may hand the processor over
-- returns an outcome: it returned, it switched, or it halted in a loop of cli and hlt. The state that
-- comes with a switch is the one in which the next continuation starts; when the task is resumed
-- later, its own call returns 0. One processor runs, and interrupts come only as steps between
-- calls, which is what the masking in the code is for.
--
-- Bounds. A queue has 256 slots. Counters are 64-bit words that wrap. The loops are recursions on the
-- number of rounds that is left, which the code computes before it starts, so that none needs fuel: the
-- entries of a ring, the shifts of a removal, the frames of a range or up to the total, the bytes of
-- the bitmap, the entries of the memory map, the 512 entries of a table, and the levels below a table. The
-- two walks over the blocks of the heap have 2048 rounds, one for each header that fits in the arena,
-- which is enough for every chain that fills it.
--
-- Not in the model: timers, ACPI, interrupt routing, devices and the console,
-- and the failures that BATOS_VMM_TEST injects. The flag that enables preemption, the memory map of Limine and its offset of the direct
-- map are arguments. An entry of the memory map is not NULL in pmm_init, which reads it without a test.
-- Registers that the caller saves are not part of a context.
-- The words of page tables stand under their physical addresses, apart from the bytes of the bitmap;
-- `invlpg` is the list of the addresses that it was given, and CR3 is read as it was written.
pub mod Prelude
pub mod Ring
pub mod Kernel
pub mod RunQueue
pub mod WaitQueue
pub mod Task
pub mod Dispatch
pub mod Scheduler
pub mod Preempt
pub mod Blocking
pub mod TaskRegistry
pub mod Lifecycle
pub mod Ownership
pub mod System
pub mod ProcessRegistry
pub mod Process
pub mod Execution
pub mod Pmm
pub mod Vmm
pub mod Heap
pub mod Tests
