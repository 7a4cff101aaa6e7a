-- ===== src/Lifecycle/Finish.antt =====
-- The end of a task, under the ownership invariant.
use batos_os.Prelude.{
  ◌≡◌, ◌≢◌, refl, ap, ◌∙◌, Bool, true, false, Ptr, null, List, ◌∷◌, arith, ret, failed,
  mem_cons_self, store, store_self, store-store,
}
use batos_os.Ring
use batos_os.Ring.{Ring}
use batos_os.Ring.Valid.{contents}
use batos_os.Kernel.{Kernel, Task, ready, running, terminated, resume_none, is_managed, state_of}
use batos_os.Ownership.{Owned, IsIn, store-RunQueueOwns, store-WaitQueuesOwn}
use batos_os.Task.{transition, exit}
use batos_os.Dispatch.{switched, Target, resolve_target}
use batos_os.Dispatch.Arrive.{arrive}
use batos_os.Dispatch.Keeps.{arrive-Owned, arrive-SameClaims}
use batos_os.Scheduler.{commit}
use batos_os.Scheduler.TakeOver.{Leaving, taken, taken-Owned, contents-taken, exit_current-switched}
use batos_os.Lifecycle.{publish, hand_over, finish}

-- The task as task_exit leaves it, and the state before the handler is called.
abbrev dead : Task → Task
dead t = record t { state = terminated; resume_authority = resume_none }

abbrev pub ended : Kernel → Ring → Kernel
ended k pending = record k {
  interrupts = false;
  tasks = store k.tasks k.current (dead (k.tasks k.current));
  pending = pending;
}

module _ {k : Kernel} (o : Owned k) (ne : k.current ≢ null) where
  runs : IsIn running k.tasks k.current
  runs = o.cpu_owner.current_runs ne

  exit_ok : exit (record k { interrupts = false }) k.current ≡ (ret 0, ended k k.pending)
  unfolding exit transition
  exit_ok =
      let asleep : Task = record (k.tasks k.current) { state = terminated } in
      ground (
        arith,
        ne,
        runs,
        store_self k.tasks k.current asleep,
        store-store k.tasks k.current asleep (dead (k.tasks k.current)),
      )

  nobody : (t : Ptr) → IsIn running (store k.tasks k.current (dead (k.tasks k.current))) t → ⊥
  unfolding store
  nobody t r = ground (arith, o.cpu_owner.sole_runner t)

  pub ended-Leaving :
      {n : Ptr} {rest : List Ptr} (pending : Ring)
      → contents k.runqueue ≡ n ∷ rest
      → Leaving (ended k pending) n rest
  ended-Leaving pending list = record {
    run_queue =
        store-RunQueueOwns k.current _ o.run_queue
          λ m. ground (arith, o.run_queue.all_ready k.current m, runs);
    wait_queues =
        store-WaitQueuesOwn k.current _ o.wait_queues refl
          λ q i m. ground (arith, o.wait_queues.all_blocked q k.current i m, runs);
    nobody_runs = nobody;
    list = list;
  }

  mode_kept :
      ((ended k k.pending).tasks k.current).lifecycle_mode ≡ (k.tasks k.current).lifecycle_mode
  unfolding store
  mode_kept = ground arith

  pub finish_unmanaged :
      is_managed (k.tasks k.current).lifecycle_mode ≡ false
      → finish k k.current ≡ hand_over k.interrupts (ended k k.pending) k.current
  unfolding finish
  finish_unmanaged m = ground (arith, exit_ok, mode_kept)

  pub finish_managed :
      is_managed (k.tasks k.current).lifecycle_mode ≡ true
      → publish (ended k k.pending) k.current ≡ (ret 0, ended k (Ring.push k.pending k.current))
      → finish k k.current
        ≡ hand_over k.interrupts (ended k (Ring.push k.pending k.current)) k.current
  unfolding finish
  finish_managed m p = ground (arith, exit_ok, mode_kept, p)

  pub finish_unpublished :
      is_managed (k.tasks k.current).lifecycle_mode ≡ true
      → failed (publish (ended k k.pending) k.current).0 ≡ true
      → (finish k k.current).0 ≢ switched
  unfolding finish
  finish_unpublished m p = ground (arith, exit_ok, mode_kept, p)

  -- The front of the run queue is another task.
  pub front-other : {n : Ptr} {rest : List Ptr} → contents k.runqueue ≡ n ∷ rest → k.current ≢ n
  front-other {n} {rest} list e =
      ground (arith, runs, o.run_queue.all_ready n (rw list (mem_cons_self n rest)))

pub publish_ok :
    (k : Kernel) (t : Ptr)
    → (publish k t).0 ≡ ret 0
    → publish k t ≡ (ret 0, record k { pending = Ring.push k.pending t })
unfolding publish
publish_ok k t h = ground arith

-- A switch to `n` from the state in which the handler is called.
pub resolve_ended :
    (k : Kernel) {n : Ptr} (pending : Ring)
    → k.current ≢ n
    → resolve_target (ended k pending) n ≡ resolve_target k n
unfolding resolve_target store
resolve_ended k pending ne = ground arith

-- What the end of the current task has done when it switches from `k`: `n` is current and RUNNING,
-- the run queue has lost it, the old current task is TERMINATED with no continuation, the tasks to be
-- reclaimed are those of the ring `pending`, and the invariant holds.
pub record Finished (k : Kernel) (n : Ptr) (rest : List Ptr) (pending : Ring) (k' : Kernel)
    : Type 0 where
  pub current : k'.current ≡ n
  pub runs : state_of k' n ≡ running
  pub queue : contents k'.runqueue ≡ rest
  pub ended : state_of k' k.current ≡ terminated
  pub no_continuation : (k'.tasks k.current).resume_authority ≡ resume_none
  pub pending_tasks : k'.pending ≡ pending
  pub owned : Owned k'

module _ {k : Kernel} {n : Ptr} {rest : List Ptr} (o : Owned k) (ne : k.current ≢ null)
    (list : contents k.runqueue ≡ n ∷ rest) (handler : k.exit_handler ≢ null)
    (good : failed (resolve_target k n).0 ≡ false) where
  other : k.current ≢ n
  other = front-other o ne list

  n_ready : IsIn ready k.tasks n
  n_ready = (o.run_queue.all_ready n (rw list (mem_cons_self n rest))).0

  taken_states :
      (pending : Ring)
      → (state_of (taken (ended k pending) n) n ≡ running)
        × (state_of (taken (ended k pending) n) k.current ≡ terminated)
        × (((taken (ended k pending) n).tasks k.current).resume_authority ≡ resume_none)
        × ((taken (ended k pending) n).pending ≡ pending)
        × ((taken (ended k pending) n).current ≡ n)
  unfolding commit store
  taken_states pending = ground (arith, other)

  pub arrived-Finished :
      (pending : Ring) (target : Target)
      → Finished k n rest pending (arrive (taken (ended k pending) n) k.current target)
  arrived-Finished pending t =
      let same = arrive-SameClaims (taken (ended k pending) n) k.current t in
      let l = ended-Leaving o ne pending list in
      let states = taken_states pending in
      record {
        current = same.current ∙ states.4;
        runs = same.states n ∙ states.0;
        queue = ap contents same.runqueue ∙ contents-taken l;
        ended = same.states k.current ∙ states.1;
        no_continuation = same.authorities k.current ∙ states.2;
        pending_tasks = same.pending ∙ states.3;
        owned = arrive-Owned k.current t (taken-Owned l);
      }

  pub hand_over_switched :
      (flags : Bool) (pending : Ring)
      → hand_over flags (ended k pending) k.current ≡ (
        switched,
        arrive (taken (ended k pending) n) k.current (resolve_target (ended k pending) n).1,
      )
  unfolding hand_over
  hand_over_switched flags pending =
      let terminated_now : IsIn terminated (ended k pending).tasks k.current =
        ap (λ (t : Task). t.state) (store_self k.tasks k.current (dead (k.tasks k.current))) in
      let good' : failed (resolve_target (ended k pending) n).0 ≡ false =
        rw (resolve_ended k pending other) good in
      ground (
        arith,
        handler,
        exit_current-switched (ended-Leaving o ne pending list) refl ne terminated_now good',
      )

  -- With a handler and a resumable successor, a task that is not managed ends the same way, and
  -- the reclamation ring stays.
  pub finish_plain :
      is_managed (k.tasks k.current).lifecycle_mode ≡ false
      → let (out, k') = finish k k.current in (out ≡ switched) × Finished k n rest k.pending k'
  finish_plain m =
      rw (finish_unmanaged o ne m, hand_over_switched k.interrupts k.pending)
        (refl, arrived-Finished k.pending _)

  -- With a handler, a resumable successor and an admitted publication, a managed task that ends
  -- under the invariant is TERMINATED without a continuation and last in the reclamation ring, its
  -- successor is current and RUNNING, and the invariant holds.
  pub finish_published :
      is_managed (k.tasks k.current).lifecycle_mode ≡ true
      → (publish (ended k k.pending) k.current).0 ≡ ret 0
      → let (out, k') = finish k k.current in
        (out ≡ switched) × Finished k n rest (Ring.push k.pending k.current) k'
  finish_published m p =
      rw
        (
          finish_managed o ne m (publish_ok (ended k k.pending) k.current p),
          hand_over_switched k.interrupts (Ring.push k.pending k.current),
        )
        (refl, arrived-Finished (Ring.push k.pending k.current) _)
