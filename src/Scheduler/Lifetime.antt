-- ===== src/Scheduler/Lifetime.antt =====
-- A task's way into the scheduler and out of it: scheduler_start, scheduler_add, and task_exit with
-- scheduler_exit_current.
use batos_os.Prelude.{
  ◌≡◌, ◌≢◌, ◌⊎◌, refl, ap, ◌<◌, inl, inr, false, not, Ptr, null, List, [], ◌∷◌, ◌++◌, ◌||◌, arith,
  ret, err, mem, store_self, ◌==◌, Bool-cases,
}
use batos_os.Ring
use batos_os.Ring.Valid.{contents, contents-push}
use batos_os.Kernel.{Kernel, Task, ready, running, state_of, is_ready}
use batos_os.Ownership.{Owned, IsIn, Owned-of_same}
use batos_os.RunQueue
use batos_os.RunQueue.Fifo
use batos_os.RunQueue.Refine.{peek_refines}
use batos_os.RunQueue.Steps.{
  dequeue_front, peek_front, enqueue_fresh, push-RunQueueOwns, enqueue-RunQueueOwns,
}
use batos_os.Task.{transition}
use batos_os.Scheduler.{start, add, enqueue, peek_next, take_next, commit}
use batos_os.Scheduler.Rotate.{with_state}
use batos_os.Scheduler.TakeOver.{Leaving, taken-Owned, n_waits}

-- The state after a start with `n` at the front.
abbrev started : Kernel → Ptr → Kernel
started k n = record k {
  tasks = with_state k.tasks n running;
  runqueue = Ring.pop k.runqueue;
  current = n;
}

idle-Leaving :
    {k : Kernel} {n : Ptr} {rest : List Ptr}
    → Owned k
    → k.current ≡ null
    → contents k.runqueue ≡ n ∷ rest
    → Leaving k n rest
idle-Leaving {k} o idle list = record {
  run_queue = o.run_queue;
  wait_queues = o.wait_queues;
  nobody_runs = λ t r. ground (arith, o.cpu_owner.sole_runner t r);
  list = list;
}

start-eq :
    {k : Kernel} {n : Ptr} {rest : List Ptr}
    → Leaving k n rest
    → k.current ≡ null
    → start k ≡ (ret 0, started k n)
unfolding start peek_next take_next transition
start-eq {k} {n} {rest} l idle = ground (
  arith,
  n_waits l,
  peek_front n rest l.run_queue.valid l.list,
  dequeue_front n rest l.run_queue.valid l.list,
)

started-Owned : {k : Kernel} {n : Ptr} {rest : List Ptr} → Leaving k n rest → Owned (started k n)
unfolding commit
started-Owned l = Owned-of_same (taken-Owned l) refl refl refl refl

-- Under the invariant, with nobody running, scheduler_start makes the front of the queue current
-- and RUNNING, takes it off the queue, returns 0 and keeps the invariant.
pub start_starts :
    {k : Kernel} {n : Ptr} {rest : List Ptr}
    → Owned k
    → k.current ≡ null
    → contents k.runqueue ≡ n ∷ rest
    → let (s, k') = start k in
      (s ≡ ret 0)
      × (k'.current ≡ n)
      × (state_of k' n ≡ running)
      × (contents k'.runqueue ≡ rest)
      × Owned k'
start_starts {k} {n} {rest} o idle list =
    let l = idle-Leaving o idle list in
    rw (start-eq l idle) (
      refl,
      refl,
      ap (λ (t : Task). t.state) (store_self k.tasks n _),
      (dequeue_front n rest l.run_queue.valid list).1,
      started-Owned l,
    )

start_busy : (k : Kernel) → k.current ≢ null → start k ≡ (err 1, k)
unfolding start
start_busy k ne = ground arith

start_empty :
    {k : Kernel} → Owned k → k.current ≡ null → contents k.runqueue ≡ [] → start k ≡ (err 2, k)
unfolding start peek_next Fifo.peek
start_empty {k} o idle e = ground (arith, peek_refines o.run_queue.valid, ap Fifo.peek e)

start_idle-Owned :
    {k : Kernel} (xs : List Ptr)
    → Owned k
    → k.current ≡ null
    → contents k.runqueue ≡ xs
    → Owned (start k).1
start_idle-Owned [] o idle e = rw (start_empty o idle e) o
start_idle-Owned (n ∷ rest) o idle e = (start_starts o idle e).4

pub start-Owned : {k : Kernel} → Owned k → Owned (start k).1
start-Owned {k} o = elim (Bool-cases (k.current == null)) [
  | inl idle ↦ start_idle-Owned (contents k.runqueue) o (ground arith) refl
  | inr busy ↦ rw (start_busy k (ground arith)) o
]

add_room :
    {k : Kernel} (t : Ptr)
    → Owned k
    → t ≢ null
    → IsIn ready k.tasks t
    → mem t (contents k.runqueue) ≡ false
    → k.runqueue.count < 256
    → add k t ≡ (ret 0, record k { runqueue = Ring.push k.runqueue t })
unfolding add enqueue
add_room {k} t o ne r out lt = ground (arith, enqueue_fresh k.tasks t o.run_queue.valid ne r out)

-- Under the invariant, with room in the run queue, scheduler_add appends a READY task that is not
-- queued, returns 0 and keeps the invariant.
pub add_adds :
    {k : Kernel} (t : Ptr)
    → Owned k
    → t ≢ null
    → IsIn ready k.tasks t
    → mem t (contents k.runqueue) ≡ false
    → k.runqueue.count < 256
    → let (s, k') = add k t in
      (s ≡ ret 0) × (contents k'.runqueue ≡ contents k.runqueue ++ t ∷ []) × Owned k'
add_adds {k} t o ne r out lt = rw (add_room t o ne r out lt) (
  refl,
  contents-push t o.run_queue.valid lt,
  record {
    run_queue = push-RunQueueOwns t o.run_queue ne r out lt;
    wait_queues = o.wait_queues;
    cpu_owner = o.cpu_owner;
  },
)

add_cases :
    (k : Kernel) (t : Ptr)
    → ((add k t).1 ≡ k)
      ⊎ ((add k t).1 ≡ record k { runqueue = (RunQueue.enqueue k.tasks k.runqueue t).1 })
unfolding add enqueue
add_cases k t = elim (Bool-cases ((t == null) || not (is_ready (state_of k t)))) [
  | inl refused ↦ inl (ground arith)
  | inr accepted ↦ inr (ground arith)
]

-- Whatever is added, the invariant stays.
pub add-Owned : {k : Kernel} (t : Ptr) → Owned k → Owned (add k t).1
add-Owned {k} t o = elim (add_cases k t) [
  | inl e ↦ rw e o
  | inr e ↦ rw e (record {
    run_queue = enqueue-RunQueueOwns t o.run_queue;
    wait_queues = o.wait_queues;
    cpu_owner = o.cpu_owner;
  })
]
