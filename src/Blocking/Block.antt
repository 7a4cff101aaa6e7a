-- ===== src/Blocking/Block.antt =====
-- task_block, under the ownership invariant.
use batos_os.Prelude.{
  ◌≡◌, ◌≢◌, refl, ap, ◌∙◌, true, false, Ptr, Mem, List, [], ◌∷◌, ◌++◌, arith, err, failed, store,
  store_self, store_ne,
}
use batos_os.Ring.{Ring}
use batos_os.Ring.Valid.{contents, contents-push}
use batos_os.Kernel.{Kernel, running, blocked, state_of}
use batos_os.Ownership.{Owned}
use batos_os.Dispatch.{returned, switched, Target, resolve_target}
use batos_os.Dispatch.Arrive.{arrive}
use batos_os.Dispatch.Keeps.{arrive-Owned, arrive-SameClaims}
use batos_os.Scheduler.{commit}
use batos_os.Scheduler.TakeOver.{taken, taken-Owned, contents-taken}
use batos_os.Blocking.{block}
use batos_os.Blocking.Admit.{
  parked, Admitted, runs, n_ready, nobody, parked-Leaving, parked_blocked, block_on-switched,
  block_on-unresolved,
}

-- What task_block has done when it switches from `k`: `n` is current and RUNNING, the run queue has
-- lost it, the old current task is BLOCKED, owned by `q` and last in it, no other wait queue has
-- changed, and the invariant holds.
pub record Blocked (k : Kernel) (q n : Ptr) (rest : List Ptr) (k' : Kernel) : Type 0 where
  pub current : k'.current ≡ n
  pub runs : state_of k' n ≡ running
  pub queue : contents k'.runqueue ≡ rest
  pub sleeps : state_of k' k.current ≡ blocked
  pub owner : (k'.tasks k.current).wait_queue ≡ q
  pub waits : contents (k'.wait_queues q) ≡ contents (k.wait_queues q) ++ k.current ∷ []
  pub others : (p : Ptr) → q ≢ p → k'.wait_queues p ≡ k.wait_queues p
  pub owned : Owned k'

module _ {k : Kernel} {q n : Ptr} {rest : List Ptr} (a : Admitted k q n rest) where
  taken_runs : state_of (taken (parked k q) n) n ≡ running
  unfolding commit store
  taken_runs = ground arith

  taken_sleeps :
      (state_of (taken (parked k q) n) k.current ≡ blocked)
      × (((taken (parked k q) n).tasks k.current).wait_queue ≡ q)
  unfolding commit store
  taken_sleeps = ground (arith, n_ready a, runs a)

  taken_queues : (taken (parked k q) n).wait_queues ≡ (parked k q).wait_queues
  unfolding commit
  taken_queues = refl

  taken_current : (taken (parked k q) n).current ≡ n
  unfolding commit
  taken_current = refl

  arrived-Blocked :
      (target : Target) → Blocked k q n rest (arrive (taken (parked k q) n) k.current target)
  arrived-Blocked t =
      let same = arrive-SameClaims (taken (parked k q) n) k.current t in
      let queues = same.wait_queues ∙ taken_queues in
      record {
        current = same.current ∙ taken_current;
        runs = same.states n ∙ taken_runs;
        queue = ap contents same.runqueue ∙ contents-taken (parked-Leaving a);
        sleeps = same.states k.current ∙ taken_sleeps.0;
        owner = same.owners k.current ∙ taken_sleeps.1;
        waits =
            ap (λ m. contents (m q)) queues
            ∙ ap contents (store_self k.wait_queues q _)
            ∙ contents-push k.current (a.owned.wait_queues.valid q a.ready_queue) a.room;
        others = λ p ne. ap (λ (m : Mem Ring). m p) queues ∙ store_ne k.wait_queues q p _ ne;
        owned = arrive-Owned k.current t (taken-Owned (parked-Leaving a));
      }

-- An admitted task_block with a resumable successor leaves the caller BLOCKED, last in the wait
-- queue and owned by it, and the successor current and RUNNING; no other wait queue changes, and
-- the invariant holds.
pub block_blocks :
    {k : Kernel} {q n : Ptr} {rest : List Ptr}
    → Admitted k q n rest
    → failed (resolve_target k n).0 ≡ false
    → let (o, k') = block k k.current q in (o ≡ switched) × Blocked k q n rest k'
block_blocks a good = rw (block_on-switched a good) (refl, arrived-Blocked a _)

-- If the successor of an admitted call does not resolve, task_block returns -13 after its
-- commitment: the current task is BLOCKED and queued, and the ownership invariant is broken.
pub block_stranded :
    {k : Kernel} {q n : Ptr} {rest : List Ptr}
    → Admitted k q n rest
    → failed (resolve_target k n).0 ≡ true
    → let (o, k') = block k k.current q in
      (o ≡ returned (err 13))
      × (k'.current ≡ k.current)
      × (state_of k' k.current ≡ blocked)
      × (contents (k'.wait_queues q) ≡ contents (k.wait_queues q) ++ k.current ∷ [])
      × ¬ Owned k'
block_stranded {k} {q} a bad = rw (block_on-unresolved a bad) (
  refl,
  refl,
  parked_blocked a,
  ap contents (store_self k.wait_queues q _)
      ∙ contents-push k.current (a.owned.wait_queues.valid q a.ready_queue) a.room,
  λ o. nobody a k.current (o.cpu_owner.current_runs a.current_ne_null),
)
