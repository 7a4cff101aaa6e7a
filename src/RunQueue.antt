-- ===== src/RunQueue.antt =====
-- kernel/sched/runqueue.c: the FIFO of READY tasks. An operation that changes the queue returns the
-- new one.
pub mod Fifo
pub mod Refine
pub mod Steps
use batos_os.Prelude.{
  ℕ, ◌&&◌, ◌||◌, Bool, true, false, not, Option, none, some, Ptr, null, Mem, Status, ret, err, leb,
  ◌==◌, if◌then◌else◌,
}
use batos_os.Ring
use batos_os.Ring.{Ring, max_tasks}
use batos_os.Kernel.{Task, is_ready}

unfoldable pub init : Status × Ring
init = (ret 0, Ring.empty)

unfoldable pub contains : Ring → Ptr → Bool
contains q task =
    if not q.initialized || task == null
    then false
    else elim (Ring.find q task) [ none ↦ false | some _ ↦ true ]

unfoldable pub enqueue : Mem Task → Ring → Ptr → Status × Ring
unfolding contains
enqueue tasks q task =
    if not q.initialized || task == null
    then (err 1, q)
    else if not (is_ready (tasks task).state)
    then (err 1, q)
    else if leb max_tasks q.count
    then (err 1, q)
    else if contains q task
    then (err 1, q)
    else (ret 0, Ring.push q task)

unfoldable pub peek : Ring → Ptr
peek q = if not q.initialized || q.count == 0 then null else Ring.front q

unfoldable pub dequeue : Ring → Ptr × Ring
dequeue q = if not q.initialized || q.count == 0 then (null, q) else (Ring.front q, Ring.pop q)

unfoldable pub remove : Ring → Ptr → Status × Ring
remove q task =
    if not q.initialized || task == null || q.count == 0
    then (err 1, q)
    else elim (Ring.find q task) [
      | none ↦ (err 1, q)
      | some index ↦ (ret 0, Ring.remove_at q index)
    ]

unfoldable pub count : Ring → ℕ
count q = if not q.initialized then 0 else q.count
