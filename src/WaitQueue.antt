-- ===== src/WaitQueue.antt =====
-- kernel/sched/wait_queue.c. A `struct wait_queue` lies in memory at a pointer, and a task in it
-- points back at it through `task->wait_queue`.
pub mod Owns
use batos_os.Prelude.{
  ℕ, ◌||◌, Bool, true, false, not, none, some, Ptr, null, store, Status, ret, err, leb, ◌==◌,
  if◌then◌else◌,
}
use batos_os.Ring
use batos_os.Ring.{Ring, max_tasks}
use batos_os.Kernel.{Kernel, is_blocked, state_of, set_task}

abbrev pub set_queue : Kernel → Ptr → Ring → Kernel
set_queue k q r = record k { wait_queues = store k.wait_queues q r }

abbrev pub set_owner : Kernel → Ptr → Ptr → Kernel
set_owner k t q = set_task k t (record (k.tasks t) { wait_queue = q })

unfoldable pub init : Kernel → Ptr → Status × Kernel
init k q = if q == null then (err 1, k) else (ret 0, set_queue k q Ring.empty)

unfoldable pub contains : Kernel → Ptr → Ptr → Bool
contains k q t =
    if (q == null) || (t == null) || not (k.wait_queues q).initialized
    then false
    else elim (Ring.find (k.wait_queues q) t) [ none ↦ false | some _ ↦ true ]

unfoldable pub enqueue : Kernel → Ptr → Ptr → Status × Kernel
enqueue k q t =
    if (q == null) || (t == null) || not (k.wait_queues q).initialized
    then (err 1, k)
    else if not (is_blocked (state_of k t))
    then (err 1, k)
    else if leb max_tasks (k.wait_queues q).count
    then (err 1, k)
    else if contains k q t
    then (err 1, k)
    else if not ((k.tasks t).wait_queue == null)
    then (err 1, k)
    else (ret 0, set_owner (set_queue k q (Ring.push (k.wait_queues q) t)) t q)

unfoldable pub peek : Kernel → Ptr → Ptr
peek k q =
    if (q == null) || not (k.wait_queues q).initialized || ((k.wait_queues q).count == 0)
    then null
    else Ring.front (k.wait_queues q)

-- `if (task != NULL && task->wait_queue == queue) task->wait_queue = NULL;`
abbrev pub disown : Kernel → Ptr → Ptr → Kernel
disown k q t =
    if t == null then k else if (k.tasks t).wait_queue == q then set_owner k t null else k

unfoldable pub dequeue : Kernel → Ptr → Ptr × Kernel
dequeue k q =
    if (q == null) || not (k.wait_queues q).initialized || ((k.wait_queues q).count == 0)
    then (null, k)
    else let t = Ring.front (k.wait_queues q) in
      (t, disown (set_queue k q (Ring.pop (k.wait_queues q))) q t)

unfoldable pub remove : Kernel → Ptr → Ptr → Status × Kernel
remove k q t =
    if (q == null)
      || (t == null)
      || not (k.wait_queues q).initialized
      || ((k.wait_queues q).count == 0)
    then (err 1, k)
    else elim (Ring.find (k.wait_queues q) t) [
      | none ↦ (err 1, k)
      | some index ↦ (ret 0, disown (set_queue k q (Ring.remove_at (k.wait_queues q) index)) q t)
    ]

unfoldable pub count : Kernel → Ptr → ℕ
count k q = if (q == null) || not (k.wait_queues q).initialized then 0 else (k.wait_queues q).count
