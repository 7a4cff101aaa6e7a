-- ===== src/Scheduler/TakeOver.antt =====
-- The end of blocking and of exit: the front of the run queue takes the processor from a task that
-- is not RUNNING any more.
use batos_os.Prelude.{
  ◌≡◌, ◌≢◌, refl, sym, ◌∙◌, true, false, true≢false, Ptr, null, List, ◌∷◌, arith, Status, err,
  failed, mem, store, mem_cons_self,
}
use batos_os.Ring
use batos_os.Ring.Valid.{contents}
use batos_os.Kernel.{Kernel, ready, running, blocked, terminated}
use batos_os.Ownership.{
  RunQueueOwns, WaitQueuesOwn, Owned, IsIn, store-RunQueueOwns, store-WaitQueuesOwn,
}
use batos_os.RunQueue.Steps.{dequeue_front, pop-RunQueueOwns, peek_front}
use batos_os.Task.{transition}
use batos_os.Dispatch.{returned, switched, Target, resolve_target}
use batos_os.Dispatch.Arrive.{IsResolved, arrive, resolve_target-IsResolved}
use batos_os.Scheduler.{peek_next, take_next, commit, take_over, block_current, exit_current}
use batos_os.Scheduler.Rotate.{with_state}
use batos_os.Scheduler.Yield.{hand_off_resolved}

abbrev pub taken : Kernel → Ptr → Kernel
taken k n =
    commit (record k { tasks = with_state k.tasks n running; runqueue = Ring.pop k.runqueue }) n

-- The claims that hold between the current task's last transition and the takeover.
pub record Leaving (k : Kernel) (n : Ptr) (rest : List Ptr) : Type 0 where
  pub run_queue : RunQueueOwns k.tasks k.runqueue
  pub wait_queues : WaitQueuesOwn k.tasks k.wait_queues
  pub nobody_runs : (t : Ptr) → IsIn running k.tasks t → ⊥
  pub list : contents k.runqueue ≡ n ∷ rest

module _ {k : Kernel} {n : Ptr} {rest : List Ptr} (l : Leaving k n rest) where
  n_in : mem n (contents k.runqueue) ≡ true
  n_in = rw l.list (mem_cons_self n rest)

  pub n_waits : IsIn ready k.tasks n × (n ≢ null)
  n_waits = l.run_queue.all_ready n n_in

  pub peek_n : peek_next k ≡ n
  unfolding peek_next
  peek_n = peek_front n rest l.run_queue.valid l.list

  take_over_front :
      (empty refused : Status) (target : Target)
      → k.current ≢ null
      → IsResolved target
      → take_over empty refused target k ≡ (switched, arrive (taken k n) k.current target)
  unfolding take_over take_next transition
  take_over_front empty refused t ne res = ground (
    arith,
    dequeue_front n rest l.run_queue.valid l.list,
    n_waits,
    hand_off_resolved (taken k n) k.current t ne res,
  )

  pub taken-Owned : Owned (taken k n)
  unfolding commit store
  taken-Owned =
      let popped = pop-RunQueueOwns n rest l.run_queue l.list in
      record {
        run_queue = store-RunQueueOwns n _ popped.0 (λ m. absurd (true≢false (sym m ∙ popped.1)));
        wait_queues =
            store-WaitQueuesOwn n _ l.wait_queues refl
              (λ q i m. ground (arith, l.wait_queues.all_blocked q n i m, n_waits));
        cpu_owner = record {
          current_runs = λ ne. ground arith;
          sole_runner = λ u run. ground (arith, l.nobody_runs u, n_waits);
        };
      }

  pub contents-taken : contents (taken k n).runqueue ≡ rest
  unfolding commit
  contents-taken = (dequeue_front n rest l.run_queue.valid l.list).1

  module _ (masked : k.interrupts ≡ false) (ne : k.current ≢ null) where
    pub block_current-switched :
        IsIn blocked k.tasks k.current
        → failed (resolve_target k n).0 ≡ false
        → block_current k k.current
          ≡ (switched, arrive (taken k n) k.current (resolve_target k n).1)
    unfolding block_current
    block_current-switched b good = ground (
      arith,
      ne,
      n_waits,
      peek_n,
      take_over_front (err 7) (err 8) _ ne (resolve_target-IsResolved k n good),
    )

    pub block_current-unresolved :
        IsIn blocked k.tasks k.current
        → failed (resolve_target k n).0 ≡ true
        → block_current k k.current ≡ (returned (err 6), k)
    unfolding block_current
    block_current-unresolved b bad = ground (arith, ne, n_waits, peek_n)

    pub exit_current-switched :
        IsIn terminated k.tasks k.current
        → failed (resolve_target k n).0 ≡ false
        → exit_current k k.current ≡ (switched, arrive (taken k n) k.current (resolve_target k n).1)
    unfolding exit_current
    exit_current-switched b good = ground (
      arith,
      ne,
      n_waits,
      peek_n,
      take_over_front (err 6) (err 7) _ ne (resolve_target-IsResolved k n good),
    )
