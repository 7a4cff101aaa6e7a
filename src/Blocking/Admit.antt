-- ===== src/Blocking/Admit.antt =====
-- The commitment of task_block, under the ownership invariant: admission, and the steps up to the
-- takeover by the successor.
use batos_os.Prelude.{
  ◌≡◌, ◌≢◌, refl, sym, ap, ◌∙◌, ◌<◌, inl, inr, true, false, true≢false, Ptr, null, List, ◌∷◌, arith,
  ret, err, failed, mem, mem_cons_self, store, store_self, store-store, ◌==◌, Bool-cases,
}
use batos_os.Ring
use batos_os.Ring.{Ring}
use batos_os.Ring.Valid.{contents}
use batos_os.Kernel.{Kernel, Task, ready, running, blocked, resume_context, set_state, set_task}
use batos_os.Kernel.Irq.{irq_restore}
use batos_os.Ownership.{Owned, IsIn, store-RunQueueOwns}
use batos_os.RunQueue.Steps.{peek_front}
use batos_os.RunQueue
use batos_os.WaitQueue
use batos_os.WaitQueue.{set_queue, set_owner}
use batos_os.WaitQueue.Owns.{push-WaitQueuesOwn, contains_lem}
use batos_os.Task.{transition}
use batos_os.Dispatch.{returned, switched, resolve_target}
use batos_os.Dispatch.Arrive.{arrive}
use batos_os.Scheduler.{peek_next}
use batos_os.Scheduler.TakeOver.{Leaving, taken, block_current-switched, block_current-unresolved}
use batos_os.Blocking.{block, block_on}

-- The blocking task, as the commitment rewrites it: its state, its owner, its continuation.
abbrev asleep : Task → Task
asleep t = record t { state = blocked }

abbrev waiting_in : Ptr → Task → Task
waiting_in q t = record t { state = blocked; wait_queue = q }

abbrev pub parked_in : Ptr → Task → Task
parked_in q t = record t { state = blocked; wait_queue = q; resume_authority = resume_context }

-- The states between the commitment and the takeover: the current task is BLOCKED behind the others
-- in the queue `q`, and interrupts are masked.
abbrev pub rewritten : Kernel → Ptr → Task → Kernel
rewritten k q task = record k {
  interrupts = false;
  tasks = store k.tasks k.current task;
  wait_queues = store k.wait_queues q (Ring.push (k.wait_queues q) k.current);
}

abbrev pub parked : Kernel → Ptr → Kernel
parked k q = rewritten k q (parked_in q (k.tasks k.current))

peek_lem : (k : Kernel) → peek_next k ≡ RunQueue.peek k.runqueue
unfolding peek_next
peek_lem k = refl

-- When task_block admits its call.
pub record Admitted (k : Kernel) (q n : Ptr) (rest : List Ptr) : Type 0 where
  pub owned : Owned k
  pub current_ne_null : k.current ≢ null
  pub queue_ne_null : q ≢ null
  pub enabled : k.interrupts ≡ true
  pub ready_queue : (k.wait_queues q).initialized ≡ true
  pub room : (k.wait_queues q).count < 256
  pub list : contents k.runqueue ≡ n ∷ rest

module _ {k : Kernel} {q n : Ptr} {rest : List Ptr} (a : Admitted k q n rest) where
  pub runs : IsIn running k.tasks k.current
  runs = a.owned.cpu_owner.current_runs a.current_ne_null

  pub in_no_queue :
      (p : Ptr)
      → (k.wait_queues p).initialized ≡ true
      → mem k.current (contents (k.wait_queues p)) ≡ false
  in_no_queue p i = elim (Bool-cases (mem k.current (contents (k.wait_queues p)))) [
    | inl m ↦ ground (arith, a.owned.wait_queues.all_blocked p k.current i m, runs)
    | inr out ↦ out
  ]

  no_owner : (k.tasks k.current).wait_queue ≡ null
  no_owner = elim (Bool-cases ((k.tasks k.current).wait_queue == null)) [
    | inl e ↦ ground arith
    | inr ne ↦
        let held = a.owned.wait_queues.owner k.current (ground arith) in
        absurd (true≢false (sym held.1 ∙ in_no_queue _ held.0))
  ]

  not_queued : mem k.current (contents k.runqueue) ≡ true → ⊥
  not_queued m = ground (arith, a.owned.run_queue.all_ready k.current m, runs)

  pub nobody : (t : Ptr) → IsIn running (parked k q).tasks t → ⊥
  unfolding store
  nobody t r = ground (arith, a.owned.cpu_owner.sole_runner t)

  pub parked-Leaving : Leaving (parked k q) n rest
  parked-Leaving =
      let t = k.current in
      let task = parked_in q (k.tasks t) in
      record {
        run_queue = store-RunQueueOwns t task a.owned.run_queue (λ m. absurd (not_queued m));
        wait_queues =
            push-WaitQueuesOwn q t task a.owned.wait_queues a.ready_queue in_no_queue
              a.queue_ne_null a.current_ne_null a.room refl refl;
        nobody_runs = nobody;
        list = a.list;
      }

  pub parked_blocked : IsIn blocked (parked k q).tasks k.current
  parked_blocked =
      ap (λ t. t.state) (store_self k.tasks k.current (parked_in q (k.tasks k.current)))

  pub n_ready : IsIn ready k.tasks n × (n ≢ null)
  n_ready = a.owned.run_queue.all_ready n (rw a.list (mem_cons_self n rest))

  -- The commitment up to the takeover.
  asleep_ok :
      transition (record k { interrupts = false }) k.current blocked
      ≡ (ret 0, set_state (record k { interrupts = false }) k.current blocked)
  unfolding transition
  asleep_ok = ground (arith, runs, a.current_ne_null)

  enqueue_ok :
      WaitQueue.enqueue (set_state (record k { interrupts = false }) k.current blocked) q k.current
      ≡ (ret 0, rewritten k q (waiting_in q (k.tasks k.current)))
  unfolding WaitQueue.enqueue
  enqueue_ok =
      let k1 = set_state (record k { interrupts = false }) k.current blocked in
      ground (
        arith,
        store_self k.tasks k.current (asleep (k.tasks k.current)),
        store-store k.tasks k.current (asleep (k.tasks k.current))
            (waiting_in q (k.tasks k.current)),
        contains_lem k1 q k.current a.queue_ne_null a.current_ne_null a.ready_queue,
        in_no_queue q a.ready_queue,
        no_owner,
        a.ready_queue,
        a.room,
        a.queue_ne_null,
        a.current_ne_null,
      )

  parked_ok :
      (let k2 = rewritten k q (waiting_in q (k.tasks k.current)) in
        set_task k2 k.current (record (k2.tasks k.current) { resume_authority = resume_context }))
      ≡ parked k q
  parked_ok = ground (
    arith,
    store_self k.tasks k.current (waiting_in q (k.tasks k.current)),
    store-store k.tasks k.current (waiting_in q (k.tasks k.current))
        (parked_in q (k.tasks k.current)),
  )

  block_admits : block k k.current q ≡ block_on true (record k { interrupts = false }) k.current q
  unfolding block
  block_admits = ground (
    arith,
    runs,
    no_owner,
    a.enabled,
    a.ready_queue,
    a.room,
    a.queue_ne_null,
    a.current_ne_null,
    contains_lem (record k { interrupts = false }) q k.current a.queue_ne_null a.current_ne_null
        a.ready_queue,
    in_no_queue q a.ready_queue,
    peek_front n rest a.owned.run_queue.valid a.list,
    peek_lem (record k { interrupts = false }),
    n_ready,
  )

  -- The front task's continuation is the same before and after the commitment.
  resolve_parked : resolve_target (parked k q) n ≡ resolve_target k n
  unfolding resolve_target store
  resolve_parked = ground (arith, n_ready, runs)

  pub block_on-switched :
      failed (resolve_target k n).0 ≡ false
      → block k k.current q
        ≡ (switched, arrive (taken (parked k q) n) k.current (resolve_target (parked k q) n).1)
  unfolding block_on
  block_on-switched good =
      block_admits
      ∙ ground (
        arith,
        asleep_ok,
        enqueue_ok,
        parked_ok,
        block_current-switched parked-Leaving refl a.current_ne_null parked_blocked
            (rw resolve_parked good),
      )

  pub block_on-unresolved :
      failed (resolve_target k n).0 ≡ true
      → block k k.current q ≡ (returned (err 13), irq_restore true (parked k q))
  unfolding block_on
  block_on-unresolved bad =
      block_admits
      ∙ ground (
        arith,
        asleep_ok,
        enqueue_ok,
        parked_ok,
        block_current-unresolved parked-Leaving refl a.current_ne_null parked_blocked
            (rw resolve_parked bad),
      )
