-- ===== src/Scheduler/Rotate.antt =====
-- The exchange that yield and preemption share: the current task goes to the end of the run queue
-- and the front takes the processor.
use batos_os.Prelude.{
  ◌≡◌, ◌≢◌, refl, sym, ap, ◌∙◌, ◌<◌, inl, inr, Bool, true, false, Ptr, null, Mem, List, [], ◌∷◌,
  ◌++◌, arith, true≢false, ret, err, leb, if◌then◌else◌, mem, mem_cons_self, store, store_self,
  fun_ext, Bool-cases, add_u64,
}
use batos_os.Ring
use batos_os.Ring.{Ring}
use batos_os.Ring.Valid.{contents, contents-push, push-IsValid}
use batos_os.Kernel.{
  Task, ready, running, Kernel, TaskState, resume_context, state_of, set_task, set_state,
}
use batos_os.Kernel.Irq.{irq_restore}
use batos_os.Ownership.{
  RunQueueOwns, WaitQueuesOwn, CpuOwns, Owned, IsIn, store-RunQueueOwns, store-WaitQueuesOwn,
}
use batos_os.RunQueue.Steps.{enqueue_fresh, push-RunQueueOwns, dequeue_front, pop-RunQueueOwns}
use batos_os.Task.{transition}
use batos_os.Dispatch.{returned, Target}
use batos_os.Scheduler.{enqueue, take_next, commit, hand_off, yield_to}

-- The memory of tasks with one task's state changed.
abbrev pub with_state : Mem Task → Ptr → TaskState → Mem Task
with_state tasks t s = store tasks t (record (tasks t) { state = s })

abbrev pub exchanged : Mem Task → (c n : Ptr) → Mem Task
exchanged tasks c n = with_state (with_state tasks c ready) n running

abbrev pub rotated : Kernel → (c n : Ptr) → Kernel
rotated k c n = record k {
  tasks = exchanged k.tasks c n;
  runqueue = Ring.pop (Ring.push k.runqueue c);
}

-- A state that a task has already can be written, and a write can be undone.
pub with_state_undo :
    (tasks : Mem Task) (t : Ptr) (s : TaskState)
    → IsIn running tasks t
    → with_state (with_state tasks t s) t running ≡ tasks
unfolding store
with_state_undo tasks t s e = fun_ext λ u. ground arith

-- What the exchange needs to know: the queue and the two tasks.
pub record Ready (k : Kernel) (c n : Ptr) (rest : List Ptr) : Type 0 where
  pub owns : RunQueueOwns k.tasks k.runqueue
  pub list : contents k.runqueue ≡ n ∷ rest
  pub c_running : IsIn running k.tasks c
  pub c_ne_null : c ≢ null

module _ {k : Kernel} {c n : Ptr} {rest : List Ptr} (r : Ready k c n rest) where
  pub c_out : mem c (contents k.runqueue) ≡ false
  c_out = elim (Bool-cases (mem c (contents k.runqueue))) [
    | inl in_queue ↦ ground (arith, r.owns.all_ready c in_queue, r.c_running)
    | inr out ↦ out
  ]

  n_in : mem n (contents k.runqueue) ≡ true
  n_in = rw r.list (mem_cons_self n rest)

  pub n_ready : IsIn ready k.tasks n × (n ≢ null)
  n_ready = r.owns.all_ready n n_in

  pub c-ne-n : c ≢ n
  c-ne-n e = ground (arith, n_ready, r.c_running)

  -- After the enqueue of `c` the queue is what it was with `c` behind.
  list-push : k.runqueue.count < 256 → contents (Ring.push k.runqueue c) ≡ n ∷ (rest ++ c ∷ [])
  list-push lt = contents-push c r.owns.valid lt ∙ ap (λ xs. xs ++ c ∷ []) r.list

  pub enqueue_c : enqueue (set_state k c ready) c ≡ (
      if leb 256 k.runqueue.count
      then (err 1, set_state k c ready)
      else (ret 0, record (set_state k c ready) { runqueue = Ring.push k.runqueue c }))
  unfolding enqueue store
  enqueue_c =
      ground (arith, enqueue_fresh (with_state k.tasks c ready) c r.owns.valid r.c_ne_null, c_out)

  pub take_n :
      k.runqueue.count < 256
      → take_next (record (set_state k c ready) { runqueue = Ring.push k.runqueue c })
        ≡ (n, record (set_state k c ready) { runqueue = Ring.pop (Ring.push k.runqueue c) })
  unfolding take_next
  take_n lt =
      ground
        (arith, dequeue_front n (rest ++ c ∷ []) (push-IsValid c r.owns.valid lt) (list-push lt))

  -- With room in the queue the exchange goes through; a full queue refuses it, and the state is
  -- what it was.
  pub yield_to-room :
      (flags : Bool) (target : Target)
      → k.runqueue.count < 256
      → yield_to flags target k c ≡ (
          let k5 = commit (rotated k c n) n in
          hand_off
            (set_task k5 c (record (k5.tasks c) { resume_authority = resume_context }))
            c
            target)
  unfolding yield_to transition store
  yield_to-room flags target lt =
      ground (arith, enqueue_c, take_n lt, n_ready, c-ne-n, r.c_running, r.c_ne_null)

  pub yield_to-full :
      (flags : Bool) (target : Target)
      → k.runqueue.count ≡ 256
      → yield_to flags target k c ≡ (returned (err 6), irq_restore flags k)
  unfolding yield_to transition
  yield_to-full flags target full = ground (
    arith,
    enqueue_c,
    r.c_running,
    r.c_ne_null,
    store_self k.tasks c (record (k.tasks c) { state = ready }),
    with_state_undo k.tasks c ready r.c_running,
  )

-- The exchange keeps every claim of ownership, with `n` for the current task.
module _ {k : Kernel} {n : Ptr} {rest : List Ptr} (o : Owned k) (r : Ready k k.current n rest)
    (lt : k.runqueue.count < 256) where
  exchanged-run_queue :
      RunQueueOwns (exchanged k.tasks k.current n) (Ring.pop (Ring.push k.runqueue k.current))
  unfolding store
  exchanged-run_queue =
      let pushed =
        push-RunQueueOwns k.current (store-RunQueueOwns k.current _ o.run_queue (λ m. refl))
          r.c_ne_null (ground arith) (c_out r) lt in
      let popped = pop-RunQueueOwns n (rest ++ k.current ∷ []) pushed (list-push r lt) in
      store-RunQueueOwns n _ popped.0 (λ m. absurd (true≢false (sym m ∙ popped.1)))

  exchanged-wait_queues : WaitQueuesOwn (exchanged k.tasks k.current n) k.wait_queues
  unfolding store
  exchanged-wait_queues =
      store-WaitQueuesOwn n _
        (store-WaitQueuesOwn k.current _ o.wait_queues refl
          (λ q i m. ground (arith, o.wait_queues.all_blocked q k.current i m, r.c_running)))
        refl (λ q i m. ground (arith, o.wait_queues.all_blocked q n i m, n_ready r))

  exchanged-cpu : CpuOwns (exchanged k.tasks k.current n) n
  unfolding store
  exchanged-cpu = record {
    current_runs = λ ne. ground arith;
    sole_runner = λ u run. ground (arith, o.cpu_owner.sole_runner u, n_ready r);
  }

  pub commit-Owned : Owned (commit (rotated k k.current n) n)
  unfolding commit
  commit-Owned = record {
    run_queue = exchanged-run_queue;
    wait_queues = exchanged-wait_queues;
    cpu_owner = exchanged-cpu;
  }

  -- The queue afterwards: the rest, with the task that gave way behind it.
  pub contents-rotated : contents (rotated k k.current n).runqueue ≡ rest ++ k.current ∷ []
  contents-rotated =
      (dequeue_front n (rest ++ k.current ∷ []) (push-IsValid k.current r.owns.valid lt)
        (list-push r lt)).1

-- What an exchange has done: `n` is current and RUNNING, the old current task is READY behind the
-- rest of the queue, one more dispatch is counted, and the invariant holds.
pub record Exchanged (k : Kernel) (n : Ptr) (rest : List Ptr) (k' : Kernel) : Type 0 where
  pub current : k'.current ≡ n
  pub queue : contents k'.runqueue ≡ rest ++ k.current ∷ []
  pub runs : state_of k' n ≡ running
  pub gives_way : state_of k' k.current ≡ ready
  pub counted : k'.dispatch_count ≡ add_u64 k.dispatch_count 1
  pub owned : Owned k'

pub commit-Exchanged :
    {k : Kernel} {n : Ptr} {rest : List Ptr}
    → Owned k
    → Ready k k.current n rest
    → k.runqueue.count < 256
    → Exchanged k n rest (commit (rotated k k.current n) n)
unfolding commit store
commit-Exchanged o r lt = record {
  current = refl;
  queue = contents-rotated o r lt;
  runs = ground arith;
  gives_way = ground (arith, c-ne-n r);
  counted = refl;
  owned = commit-Owned o r lt;
}
