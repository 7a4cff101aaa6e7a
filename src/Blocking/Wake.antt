-- ===== src/Blocking/Wake.antt =====
-- task_wake, under the ownership invariant.
use batos_os.Prelude.{
  ℕ, ◌≡◌, ◌≢◌, ◌⊎◌, refl, sym, ap, ◌∙◌, ◌<◌, inl, inr, Bool, true, false, true≢false, Ptr, null, [],
  ◌∷◌, ◌++◌, arith, some, Option-cases, ret, err, mem, erase, store, store_self, store_ne,
  store-store, ◌==◌, Bool-cases, ltb,
}
use batos_os.Ring
use batos_os.Ring.{Ring}
use batos_os.Ring.Valid.{contents, contents-push, length-contents}
use batos_os.Ring.Search.{find-none, find-mem, find-Found}
use batos_os.Ring.Remove.{contents-remove_at_found}
use batos_os.Kernel.{Kernel, Task, ready, blocked, state_of, is_blocked}
use batos_os.Ownership.{Owned, IsIn, store-RunQueueOwns}
use batos_os.RunQueue.Fifo
use batos_os.RunQueue.Refine.{contains_refines, count_refines}
use batos_os.RunQueue.Steps.{enqueue_fresh, push-RunQueueOwns}
use batos_os.WaitQueue
use batos_os.WaitQueue.Owns.{remove-WaitQueuesOwn, contains_lem}
use batos_os.Task.{transition}
use batos_os.Scheduler
use batos_os.Blocking.{wake}

-- The woken task: its owner goes, then it is READY.
abbrev released : Task → Task
released t = record t { wait_queue = null }

abbrev woken_task : Task → Task
woken_task t = record t { state = ready; wait_queue = null }

-- The state after the task has left its queue at the index `j`.
abbrev removed : Kernel → (q t : Ptr) → ℕ → Task → Kernel
removed k q t j task = record k {
  tasks = store k.tasks t task;
  wait_queues = store k.wait_queues q (Ring.remove_at (k.wait_queues q) j);
}

abbrev woken : Kernel → (q t : Ptr) → ℕ → Kernel
woken k q t j = record (removed k q t j (woken_task (k.tasks t))) {
  runqueue = Ring.push k.runqueue t;
}

-- A BLOCKED task `t` that is found at the index `j` of the queue that it points at.
record Sleeping (k : Kernel) (t : Ptr) (j : ℕ) : Type 0 where
  owned : Owned k
  asleep : IsIn blocked k.tasks t
  not_null : t ≢ null
  has_owner : (k.tasks t).wait_queue ≢ null
  ready_queue : (k.wait_queues (k.tasks t).wait_queue).initialized ≡ true
  found : Ring.find (k.wait_queues (k.tasks t).wait_queue) t ≡ some j

module _ {k : Kernel} {t : Ptr} {j : ℕ} (s : Sleeping k t j) where
  abbrev owner : Ptr
  owner = (k.tasks t).wait_queue

  not_queued : mem t (contents k.runqueue) ≡ false
  not_queued = elim (Bool-cases (mem t (contents k.runqueue))) [
    | inl m ↦ ground (arith, s.owned.run_queue.all_ready t m, s.asleep)
    | inr out ↦ out
  ]

  held : mem t (contents (k.wait_queues owner)) ≡ true
  held = find-mem (k.wait_queues owner) t s.found

  occupied : (k.wait_queues owner).count ≢ 0
  occupied z = let lt = (find-Found (k.wait_queues owner) t j s.found).index_lt in omega arith

  remove_ok :
      (i : Bool)
      → WaitQueue.remove (record k { interrupts = i }) owner t
        ≡ (ret 0, record (removed k owner t j (released (k.tasks t))) { interrupts = i })
  unfolding WaitQueue.remove
  remove_ok i = ground (arith, s.ready_queue, s.not_null, s.has_owner, s.found, occupied)

  transition_ok :
      (i : Bool)
      → transition (record (removed k owner t j (released (k.tasks t))) { interrupts = i }) t ready
        ≡ (ret 0, record (removed k owner t j (woken_task (k.tasks t))) { interrupts = i })
  unfolding transition
  transition_ok i = ground (
    arith,
    s.not_null,
    s.asleep,
    store_self k.tasks t (released (k.tasks t)),
    store-store k.tasks t (released (k.tasks t)) (woken_task (k.tasks t)),
  )

  add_ok :
      (i : Bool)
      → k.runqueue.count < 256
      → Scheduler.add (record (removed k owner t j (woken_task (k.tasks t))) { interrupts = i }) t
        ≡ (ret 0, record (woken k owner t j) { interrupts = i })
  unfolding Scheduler.add Scheduler.enqueue
  add_ok i lt = ground (
    arith,
    s.not_null,
    store_self k.tasks t (woken_task (k.tasks t)),
    enqueue_fresh (store k.tasks t (woken_task (k.tasks t))) t s.owned.run_queue.valid s.not_null
        (ap (λ (u : Task). u.state) (store_self k.tasks t (woken_task (k.tasks t)))) not_queued,
  )

  wake_room : k.runqueue.count < 256 → wake k t ≡ (ret 0, woken k owner t j)
  unfolding wake Fifo.contains
  wake_room lt = ground (
    arith,
    s.asleep,
    s.not_null,
    s.has_owner,
    contains_lem (record k { interrupts = false }) owner t s.has_owner s.not_null s.ready_queue,
    held,
    count_refines s.owned.run_queue.valid,
    length-contents k.runqueue,
    contains_refines t s.owned.run_queue.valid,
    not_queued,
    remove_ok false,
    transition_ok false,
    add_ok false lt,
  )

  wake_full : k.runqueue.count ≡ 256 → wake k t ≡ (err 7, k)
  unfolding wake Fifo.contains
  wake_full full = ground (
    arith,
    s.asleep,
    s.not_null,
    s.has_owner,
    contains_lem (record k { interrupts = false }) owner t s.has_owner s.not_null s.ready_queue,
    held,
    count_refines s.owned.run_queue.valid,
    length-contents k.runqueue,
  )

  woken-Owned : k.runqueue.count < 256 → Owned (woken k owner t j)
  unfolding store
  woken-Owned lt = record {
    run_queue =
        push-RunQueueOwns t
          (store-RunQueueOwns t (woken_task (k.tasks t)) s.owned.run_queue (λ m. refl)) s.not_null
          (ground arith) not_queued lt;
    wait_queues =
        remove-WaitQueuesOwn owner t j (woken_task (k.tasks t)) s.owned.wait_queues s.ready_queue
          s.found refl;
    cpu_owner = record {
      current_runs = λ ne. ground (arith, s.owned.cpu_owner.current_runs ne, s.asleep);
      sole_runner = λ u r. ground (arith, s.owned.cpu_owner.sole_runner u, s.asleep);
    };
  }

-- What task_wake has done when it returns 0: `t` is READY and last in the run queue, it has left its
-- wait queue and the others there have kept their order, no other wait queue has changed, the
-- processor and its interrupt flag have stayed as they were, and the invariant holds.
pub record Woken (k : Kernel) (t : Ptr) (k' : Kernel) : Type 0 where
  pub wakes : state_of k' t ≡ ready
  pub queue : contents k'.runqueue ≡ contents k.runqueue ++ t ∷ []
  pub free : (k'.tasks t).wait_queue ≡ null
  pub leaves :
      contents (k'.wait_queues (k.tasks t).wait_queue)
      ≡ erase t (contents (k.wait_queues (k.tasks t).wait_queue))
  pub others : (p : Ptr) → (k.tasks t).wait_queue ≢ p → k'.wait_queues p ≡ k.wait_queues p
  pub current : k'.current ≡ k.current
  pub interrupts : k'.interrupts ≡ k.interrupts
  pub owned : Owned k'

woken-Woken :
    {k : Kernel} {t : Ptr} {j : ℕ} (s : Sleeping k t j)
    → k.runqueue.count < 256
    → Woken k t (woken k (k.tasks t).wait_queue t j)
woken-Woken {k} {t} {j} s lt =
    let q = (k.tasks t).wait_queue in
    record {
      wakes = ap (λ (u : Task). u.state) (store_self k.tasks t (woken_task (k.tasks t)));
      queue = contents-push t s.owned.run_queue.valid lt;
      free = ap (λ (u : Task). u.wait_queue) (store_self k.tasks t (woken_task (k.tasks t)));
      leaves =
          ap contents (store_self k.wait_queues q _)
          ∙ contents-remove_at_found t j (s.owned.wait_queues.valid q s.ready_queue) s.found;
      others = λ p ne. store_ne k.wait_queues q p _ ne;
      current = refl;
      interrupts = refl;
      owned = woken-Owned s lt;
    }

-- Under the invariant a BLOCKED task that points at a wait queue is found in it.
sleeping :
    {k : Kernel} {t : Ptr}
    → Owned k
    → IsIn blocked k.tasks t
    → t ≢ null
    → (k.tasks t).wait_queue ≢ null
    → (j : ℕ) × Sleeping k t j
sleeping {k} {t} o b tne ne =
    let q = (k.tasks t).wait_queue in
    let held = o.wait_queues.owner t ne in
    elim (Option-cases (Ring.find (k.wait_queues q) t)) [
      | inl e ↦ absurd (true≢false (sym held.1 ∙ find-none (k.wait_queues q) t e))
      | inr (j, e) ↦ (
        j,
        record {
          owned = o;
          asleep = b;
          not_null = tne;
          has_owner = ne;
          ready_queue = held.0;
          found = e;
        },
      )
    ]

-- Under the ownership invariant, with room in the run queue, task_wake takes a waiting task out of
-- its queue, keeping the order of the others, and appends it to the run queue, READY and without
-- an owner, and changes neither another wait queue, the current task nor the interrupt flag.
pub wake_wakes :
    {k : Kernel} {t : Ptr}
    → Owned k
    → IsIn blocked k.tasks t
    → t ≢ null
    → (k.tasks t).wait_queue ≢ null
    → k.runqueue.count < 256
    → let (s, k') = wake k t in (s ≡ ret 0) × Woken k t k'
wake_wakes o b tne ne lt =
    let (j, s) = sleeping o b tne ne in rw (wake_room s lt) (refl, woken-Woken s lt)

wake-null : (k : Kernel) (t : Ptr) → t ≡ null → wake k t ≡ (err 1, k)
unfolding wake
wake-null k t e = ground arith

wake_awake :
    (k : Kernel) (t : Ptr) → t ≢ null → is_blocked (state_of k t) ≡ false → wake k t ≡ (err 2, k)
unfolding wake
wake_awake k t ne e = ground arith

wake_free :
    (k : Kernel) (t : Ptr)
    → t ≢ null
    → is_blocked (state_of k t) ≡ true
    → (k.tasks t).wait_queue ≡ null
    → wake k t ≡ (err 3, k)
unfolding wake
wake_free k t ne b e = ground arith

is_blocked_lem : (k : Kernel) (t : Ptr) → is_blocked (state_of k t) ≡ true → IsIn blocked k.tasks t
is_blocked_lem k t e = ground arith

-- Under the ownership invariant every call of task_wake wakes its task or fails and changes
-- nothing.
pub wake_atomic :
    {k : Kernel} (t : Ptr)
    → Owned k
    → (((wake k t).0 ≡ ret 0) × Woken k t (wake k t).1) ⊎ ((e : ℕ) × (wake k t ≡ (err e, k)))
wake_atomic {k} t o = elim (Bool-cases (t == null)) [
  | inl e ↦ inr (1, wake-null k t (ground arith))
  | inr tne ↦ elim (Bool-cases (is_blocked (state_of k t))) [
    | inr awake ↦ inr (2, wake_awake k t (ground arith) awake)
    | inl b ↦ elim (Bool-cases ((k.tasks t).wait_queue == null)) [
      | inl free ↦ inr (3, wake_free k t (ground arith) b (ground arith))
      | inr ne ↦ elim (Bool-cases (ltb k.runqueue.count 256)) [
        | inl lt ↦
            inl (wake_wakes o (is_blocked_lem k t b) (ground arith) (ground arith) (ground arith))
        | inr ge ↦
            let (j, s) = sleeping o (is_blocked_lem k t b) (ground arith) (ground arith) in
            inr (7, wake_full s (ground (arith, o.run_queue.valid.fits)))
      ]
    ]
  ]
]
