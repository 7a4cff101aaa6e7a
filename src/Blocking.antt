-- ===== src/Blocking.antt =====
-- task_block and task_wake of kernel/sched/task.c.
pub mod Admit
pub mod Block
pub mod Atomic
pub mod Wake
use batos_os.Prelude.{
  ◌||◌, Bool, not, Ptr, null, Status, ret, err, failed, leb, ◌==◌, if◌then◌else◌,
}
use batos_os.Ring.{max_tasks}
use batos_os.Kernel.{
  ready, blocked, resume_context, is_ready, is_running, is_blocked, Kernel, state_of, set_task,
}
use batos_os.Kernel.Irq.{irq_save, irq_restore, irq_is_enabled}
use batos_os.RunQueue
use batos_os.WaitQueue
use batos_os.Task.{transition}
use batos_os.Dispatch.{Outcome, returned, switched, halted}
use batos_os.Scheduler.{peek_next, block_current}
use batos_os.Scheduler

-- task_block from the commitment on: `k` has interrupts masked.
unfoldable pub block_on : Bool → Kernel → (t q : Ptr) → Outcome × Kernel
block_on flags k t q =
    let (s1, k1) = transition k t blocked in
    if failed s1
    then (returned (err 11), irq_restore flags k1)
    else let (s2, k2) = WaitQueue.enqueue k1 q t in
      if failed s2
      then (returned (err 12), irq_restore flags k2)
      else let (outcome, k3) =
          block_current (set_task k2 t (record (k2.tasks t) { resume_authority = resume_context }))
            t in
        elim outcome [
          | returned s ↦
              if failed s then (returned (err 13), irq_restore flags k3) else (returned (ret 0), k3)
          | switched ↦ (switched, k3)
          | halted ↦ (halted, k3)
        ]

unfoldable pub block : Kernel → (t q : Ptr) → Outcome × Kernel
unfolding block_on
block k t q =
    if (t == null) || (q == null)
    then (returned (err 1), k)
    else if not (k.current == t)
    then (returned (err 2), k)
    else if not (is_running (state_of k t))
    then (returned (err 3), k)
    else if not ((k.tasks t).wait_queue == null)
    then (returned (err 4), k)
    else if not (irq_is_enabled k)
    then (returned (err 5), k)
    else let (flags, k0) = irq_save k in
      if not (k0.wait_queues q).initialized
      then (returned (err 6), irq_restore flags k0)
      else if leb max_tasks (k0.wait_queues q).count
      then (returned (err 7), irq_restore flags k0)
      else if WaitQueue.contains k0 q t
      then (returned (err 8), irq_restore flags k0)
      else if peek_next k0 == null
      then (returned (err 9), irq_restore flags k0)
      else if not (is_ready (state_of k0 (peek_next k0)))
      then (returned (err 10), irq_restore flags k0)
      else block_on flags k0 t q

-- task_wake from the commitment on.
unfoldable pub wake_from : Bool → Kernel → (t q : Ptr) → Status × Kernel
wake_from flags k t q =
    let (s1, k1) = WaitQueue.remove k q t in
    if failed s1
    then (err 9, irq_restore flags k1)
    else let (s2, k2) = transition k1 t ready in
      if failed s2
      then (err 10, irq_restore flags k2)
      else let (s3, k3) = Scheduler.add k2 t in
        if failed s3 then (err 11, irq_restore flags k3) else (ret 0, irq_restore flags k3)

-- The state and the owner are read twice, before and after interrupts are masked.
unfoldable pub wake : Kernel → Ptr → Status × Kernel
unfolding wake_from
wake k t =
    if t == null
    then (err 1, k)
    else if not (is_blocked (state_of k t))
    then (err 2, k)
    else if (k.tasks t).wait_queue == null
    then (err 3, k)
    else let (flags, k0) = irq_save k in
      let q = (k0.tasks t).wait_queue in
      if not (is_blocked (state_of k0 t))
      then (err 4, irq_restore flags k0)
      else if q == null
      then (err 5, irq_restore flags k0)
      else if not (WaitQueue.contains k0 q t)
      then (err 6, irq_restore flags k0)
      else if leb max_tasks (RunQueue.count k0.runqueue)
      then (err 7, irq_restore flags k0)
      else if RunQueue.contains k0.runqueue t
      then (err 8, irq_restore flags k0)
      else wake_from flags k0 t q
