-- ===== src/System.antt =====
-- The scheduling core as a transition system. Its steps are scheduler_start, scheduler_add and
-- scheduler_yield (kernel/sched/scheduler.c), task_block, task_wake and the transition of a NEW task
-- to READY (kernel/sched/task.c), wait_queue_init (kernel/sched/wait_queue.c), the timer interrupt
-- (kernel/arch/x86_64/sched/preempt.c), and the end of a task. The calls that these make inside are
-- no steps of their own: the other transitions, task_exit, the operations of a wait queue, and the
-- takeovers of the scheduler. Nor are task_create and task_destroy.
pub mod Invariant
use batos_os.Prelude.{◌≡◌, ◌≢◌, ◌⊎◌, Bool, true, false, Ptr, null, List, ◌∷◌, ret, err, failed}
use batos_os.Ring.Valid.{contents}
use batos_os.Kernel.{Kernel, new, ready, is_managed}
use batos_os.Ownership.{IsIn}
use batos_os.WaitQueue
use batos_os.Task.{transition}
use batos_os.Dispatch.{resolve_target}
use batos_os.Scheduler.{start, add, yield}
use batos_os.Blocking.{block, wake}
use batos_os.Dispatch.{returned, switched}
use batos_os.Preempt.{handle_timer}
use batos_os.Lifecycle.{publish, finish}
use batos_os.Lifecycle.Finish.{ended}

-- One call, whether it succeeds or fails, from the state that it finds to the one in which the next
-- continuation goes on: task_block unless it returns -13, and a task's end if it hands the processor
-- over. A wait queue is initialised once, and the frame of an interrupt is not NULL.
pub data Step : Kernel → Kernel → Type 0 where
  starts : {k : Kernel} → Step k (start k).1
  readies : {k : Kernel} (t : Ptr) → IsIn new k.tasks t → Step k (transition k t ready).1
  adds : {k : Kernel} (t : Ptr) → Step k (add k t).1
  yields : {k : Kernel} → Step k (yield k).1
  initialises :
      {k : Kernel} (q : Ptr) → (k.wait_queues q).initialized ≡ false → Step k (WaitQueue.init k q).1
  blocks : {k : Kernel} (t q : Ptr) → (block k t q).0 ≢ returned (err 13) → Step k (block k t q).1
  wakes : {k : Kernel} (t : Ptr) → Step k (wake k t).1
  ticks :
      {k : Kernel} (enabled : Bool) (frame : Ptr)
      → frame ≢ null
      → Step k (handle_timer enabled k frame).2
  ends :
      {k : Kernel}
      → k.current ≢ null
      → (finish k k.current).0 ≡ switched
      → Step k (finish k k.current).1

pub data Reach (k : Kernel) : Kernel → Type 0 where
  stays : Reach k k
  goes : {k1 k2 : Kernel} → Reach k k1 → Step k1 k2 → Reach k k2
