-- ===== src/System/Invariant.antt =====
-- The ownership invariant of the transition system, and what it says of the tasks.
use batos_os.Prelude.{
  ◌≡◌, ◌≢◌, refl, sym, ◌∙◌, ap, ◌⊎◌, inl, inr, true, false, true≢false, Ptr, null, arith, mem,
  store, ◌==◌, Bool-cases, ret,
}
use batos_os.Ring
use batos_os.Ring.Valid.{contents, empty-IsValid, contents-empty}
use batos_os.Kernel.{Kernel, new, ready, running, set_state}
use batos_os.Ownership.{
  Owned, WaitQueuesOwn, CpuOwns, IsIn, store-RunQueueOwns, store-WaitQueuesOwn,
}
use batos_os.RunQueue
use batos_os.WaitQueue
use batos_os.WaitQueue.{set_queue}
use batos_os.Blocking.{wake}
use batos_os.Task.{transition, set_exit_handler}
use batos_os.Scheduler
use batos_os.Scheduler.Lifetime.{start-Owned, add-Owned}
use batos_os.Scheduler.Yield.{Atomic, yield-Atomic}
use batos_os.Blocking.Atomic.{block-Atomic}
use batos_os.Blocking.Wake.{wake_atomic}
use batos_os.Preempt.Timer.{timer-Continues}
use batos_os.Lifecycle.Ends.{finish-Owned}
use batos_os.Dispatch.{Outcome}
use batos_os.System.{
  Step, starts, readies, adds, yields, initialises, blocks, wakes, ticks, ends, Reach, stays, goes,
}

Owned-of_Atomic : {k : Kernel} {r : Outcome × Kernel} → Owned k → Atomic k r → Owned r.1
Owned-of_Atomic o (inl done) = done.1
Owned-of_Atomic o (inr (e, same)) = rw same o

ready_eq :
    (k : Kernel) (t : Ptr)
    → IsIn new k.tasks t
    → t ≢ null
    → (transition k t ready).1 ≡ set_state k t ready
unfolding transition
ready_eq k t fresh ne = ground arith

set_ready-CpuOwns :
    {k : Kernel} (t : Ptr)
    → IsIn new k.tasks t
    → Owned k
    → CpuOwns (set_state k t ready).tasks k.current
unfolding store
set_ready-CpuOwns {k} t fresh o = record {
  current_runs = λ ne. ground (arith, o.cpu_owner.current_runs ne);
  sole_runner = λ u runs. ground (arith, o.cpu_owner.sole_runner u);
}

set_ready-Owned :
    {k : Kernel} (t : Ptr) → IsIn new k.tasks t → Owned k → Owned (set_state k t ready)
set_ready-Owned {k} t fresh o = record {
  run_queue = store-RunQueueOwns t _ o.run_queue (λ m. refl);
  wait_queues =
      store-WaitQueuesOwn t _ o.wait_queues refl
        λ q i m. ground (arith, o.wait_queues.all_blocked q t i m);
  cpu_owner = set_ready-CpuOwns t fresh o;
}

ready_null : (k : Kernel) (t : Ptr) → t ≡ null → (transition k t ready).1 ≡ k
unfolding transition
ready_null k t e = ground arith

ready-Owned : {k : Kernel} (t : Ptr) → IsIn new k.tasks t → Owned k → Owned (transition k t ready).1
ready-Owned {k} t fresh o = elim (Bool-cases (t == null)) [
  | inl none ↦ rw (ready_null k t (ground arith)) o
  | inr some_task ↦ rw (ready_eq k t fresh (ground arith)) (set_ready-Owned t fresh o)
]

init_cases :
    (k : Kernel) (q : Ptr)
    → ((WaitQueue.init k q).1 ≡ k) ⊎ ((WaitQueue.init k q).1 ≡ set_queue k q Ring.empty)
unfolding WaitQueue.init
init_cases k q = elim (Bool-cases (q == null)) [
  | inl none ↦ inl (ground arith)
  | inr some_queue ↦ inr (ground arith)
]

set_empty-WaitQueuesOwn :
    (k : Kernel) (q : Ptr)
    → (k.wait_queues q).initialized ≡ false
    → WaitQueuesOwn k.tasks k.wait_queues
    → WaitQueuesOwn k.tasks (store k.wait_queues q Ring.empty)
unfolding store mem
set_empty-WaitQueuesOwn k q fresh o = record {
  valid = λ p i. ground (arith, o.valid p, empty-IsValid);
  distinct = λ p i. ground (arith, o.distinct p, contents-empty);
  all_blocked = λ p t i m. ground (arith, o.all_blocked p t, contents-empty);
  owner = λ t ne. ground (arith, o.owner t ne);
}

init-Owned :
    {k : Kernel} (q : Ptr)
    → (k.wait_queues q).initialized ≡ false
    → Owned k
    → Owned (WaitQueue.init k q).1
init-Owned {k} q fresh o = elim (init_cases k q) [
  | inl e ↦ rw e o
  | inr e ↦ rw e (record {
    run_queue = o.run_queue;
    wait_queues = set_empty-WaitQueuesOwn k q fresh o.wait_queues;
    cpu_owner = o.cpu_owner;
  })
]

wake-Owned : {k : Kernel} (t : Ptr) → Owned k → Owned (wake k t).1
wake-Owned t o = elim (wake_atomic t o) [ inl done ↦ done.1.owned | inr (e, same) ↦ rw same o ]

-- Every step keeps the ownership invariant, whether its call succeeds or fails.
pub Step-Owned : {k k' : Kernel} → Step k k' → Owned k → Owned k'
Step-Owned starts o = start-Owned o
Step-Owned (readies t fresh) o = ready-Owned t fresh o
Step-Owned (adds t) o = add-Owned t o
Step-Owned yields o = Owned-of_Atomic o (yield-Atomic o)
Step-Owned (initialises q fresh) o = init-Owned q fresh o
Step-Owned (blocks t q whole) o = Owned-of_Atomic o (block-Atomic t q o whole)
Step-Owned (wakes t) o = wake-Owned t o
Step-Owned (ticks enabled frame nf) o = (timer-Continues enabled frame nf o).1
Step-Owned (ends busy out) o = finish-Owned o busy out

pub Reach-Owned : {k k' : Kernel} → Reach k k' → Owned k → Owned k'
Reach-Owned stays o = o
Reach-Owned (goes before step) o = Step-Owned step (Reach-Owned before o)

-- The machine before the scheduler has run: no task is RUNNING, and no wait queue is in use.
pub record AtBoot (k : Kernel) : Type 0 where
  pub nobody_runs : (t : Ptr) → ¬ IsIn running k.tasks t
  pub no_queue : (q : Ptr) → (k.wait_queues q).initialized ≡ false
  pub nobody_waits : (t : Ptr) → (k.tasks t).wait_queue ≡ null

init_state :
    (k : Kernel) (handler : Ptr)
    → handler ≢ null
    → Scheduler.init handler k ≡ (
      ret 0,
      record k {
        current = null;
        dispatch_count = 0;
        runqueue = Ring.empty;
        exit_handler = handler;
      },
    )
unfolding Scheduler.init RunQueue.init set_exit_handler
init_state k handler ne = ground arith

boot-Owned :
    {k : Kernel} (handler : Ptr) → handler ≢ null → AtBoot k → Owned (Scheduler.init handler k).1
unfolding mem
boot-Owned {k} handler ne b = rw (init_state k handler ne) (record {
  run_queue = record {
    valid = empty-IsValid;
    distinct = rw contents-empty tt;
    all_ready = λ t m. absurd (true≢false (sym m ∙ ap (mem t) contents-empty));
  };
  wait_queues = record {
    valid = λ q i. absurd (true≢false (sym i ∙ b.no_queue q));
    distinct = λ q i. absurd (true≢false (sym i ∙ b.no_queue q));
    all_blocked = λ q t i m. absurd (true≢false (sym i ∙ b.no_queue q));
    owner = λ t w. absurd (w (b.nobody_waits t));
  };
  cpu_owner = record {
    current_runs = λ c. absurd (c refl);
    sole_runner = λ t r. absurd (b.nobody_runs t r);
  };
})

-- From scheduler_init on a machine where no task is RUNNING and no wait queue is in use, every
-- sequence of the following calls, failed ones included, keeps the ownership invariant:
-- scheduler_start, scheduler_add, scheduler_yield, task_block where it does not return -13,
-- task_wake, task_transition of a NEW task to READY, wait_queue_init of a queue that is not
-- initialised, the timer interrupt with a frame that is not NULL, and the end of the current task
-- where it hands the processor over. The invariant: the run queue holds READY tasks, each
-- initialised wait queue the BLOCKED tasks that point back at it, and the current task, if there
-- is one, is RUNNING and the only RUNNING one.
pub boot_keeps :
    {k k' : Kernel} (handler : Ptr)
    → AtBoot k
    → handler ≢ null
    → Reach (Scheduler.init handler k).1 k'
    → Owned k'
boot_keeps handler b ne reach = Reach-Owned reach (boot-Owned handler ne b)

-- In every state that a sequence of the calls of boot_keeps, on the terms that it names, reaches
-- from scheduler_init, at most one task is RUNNING, no queued task runs or waits, and no task
-- waits in two queues.
pub boot_exclusive :
    {k k' : Kernel} (handler t : Ptr)
    → AtBoot k
    → handler ≢ null
    → Reach (Scheduler.init handler k).1 k'
    → ((u : Ptr) → IsIn running k'.tasks t → IsIn running k'.tasks u → t ≡ u)
      × (mem t (contents k'.runqueue) ≡ true
          → (¬ IsIn running k'.tasks t)
            × ((q : Ptr)
                → (k'.wait_queues q).initialized ≡ true
                → mem t (contents (k'.wait_queues q)) ≡ false))
      × ((p q : Ptr)
          → (k'.wait_queues p).initialized ≡ true
          → (k'.wait_queues q).initialized ≡ true
          → mem t (contents (k'.wait_queues p)) ≡ true
          → mem t (contents (k'.wait_queues q)) ≡ true
          → p ≡ q)
boot_exclusive {k' = k'} handler t b ne reach =
    let o = boot_keeps handler b ne reach in
    (
      λ u r s. (o.cpu_owner.sole_runner t r).0 ∙ sym (o.cpu_owner.sole_runner u s).0,
      λ m. (
        λ r. ground (arith, o.run_queue.all_ready t m),
        λ q i. elim (Bool-cases (mem t (contents (k'.wait_queues q)))) [
          | inl w ↦ ground (arith, o.run_queue.all_ready t m, o.wait_queues.all_blocked q t i w)
          | inr out ↦ out
        ],
      ),
      λ p q i j m w.
          sym (o.wait_queues.all_blocked p t i m).1 ∙ (o.wait_queues.all_blocked q t j w).1,
    )
