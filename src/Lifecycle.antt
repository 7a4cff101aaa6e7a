-- ===== src/Lifecycle.antt =====
-- kernel/lifecycle/lifecycle.c up to the publication of a terminated task, and the end of a task's
-- execution in task_bootstrap_entry of kernel/sched/task.c. The reaper is in the child Reap.
pub mod Finish
pub mod Ends
pub mod Reap
pub mod Owners
pub mod Reclaim
use batos_os.Prelude.{
  ℕ, ◌||◌, Bool, true, false, not, none, some, Ptr, null, Status, ret, err, failed, leb, ◌==◌,
  if◌then◌else◌,
}
use batos_os.Ring
use batos_os.Ring.{max_tasks}
use batos_os.Kernel.{Kernel, is_terminated, is_managed, state_of}
use batos_os.Kernel.Irq.{irq_save, irq_restore}
use batos_os.TaskRegistry
use batos_os.Task.{exit}
use batos_os.Dispatch.{Outcome, returned, switched, halted}
use batos_os.Scheduler.{exit_current}

unfoldable pub init : Kernel → Status × Kernel
init k = (ret 0, record k { pending = Ring.empty })

unfoldable pub contains_pending : Kernel → Ptr → Bool
contains_pending k t =
    if not k.pending.initialized || (t == null)
    then false
    else elim (Ring.find k.pending t) [ none ↦ false | some _ ↦ true ]

unfoldable pub publish : Kernel → Ptr → Status × Kernel
publish k t =
    if not k.pending.initialized || (t == null)
    then (err 1, k)
    else if not (is_terminated (state_of k t))
    then (err 2, k)
    else if not (is_managed (k.tasks t).lifecycle_mode)
    then (err 3, k)
    else if leb max_tasks k.pending.count
    then (err 4, k)
    else if contains_pending k t
    then (err 5, k)
    else if not (TaskRegistry.contains k.tasks k.registry t)
    then (err 6, k)
    else (ret 0, record k { pending = Ring.push k.pending t })

unfoldable pub pending_count : Kernel → ℕ
pending_count k = if not k.pending.initialized then 0 else k.pending.count

-- `for (;;) cli; hlt`
abbrev pub halt : Kernel → Outcome × Kernel
halt k = (halted, record k { interrupts = false })

-- The call of the exit handler and what follows it. The kernel registers one handler only,
-- scheduler_exit_current.
unfoldable pub hand_over : Bool → Kernel → Ptr → Outcome × Kernel
hand_over flags k t =
    if k.exit_handler == null
    then halt (irq_restore flags k)
    else let (outcome, k1) = exit_current k t in
      elim outcome [
        | returned s ↦ if failed s then halt (irq_restore flags k1) else halt k1
        | switched ↦ (switched, k1)
        | halted ↦ (halted, k1)
      ]

-- task_bootstrap_entry once `current->entry` has returned.
unfoldable pub finish : Kernel → Ptr → Outcome × Kernel
unfolding hand_over
finish k t =
    let (flags, k0) = irq_save k in
    let (s1, k1) = exit k0 t in
    if failed s1
    then halt (irq_restore flags k1)
    else if is_managed (k1.tasks t).lifecycle_mode
    then (let (s2, k2) = publish k1 t in if failed s2 then halt k2 else hand_over flags k2 t)
    else hand_over flags k1 t
