-- ===== src/Blocking/Atomic.antt =====
-- Every call of task_block: refused with the state as it was, or admitted.
use batos_os.Prelude.{
  sym, ap, ◌∙◌, ℕ, ◌≡◌, ◌≢◌, refl, ap, inl, inr, false, not, Ptr, null, List, [], ◌∷◌, ◌||◌, arith,
  err, failed, ◌==◌, Bool-cases, leb, if◌then◌else◌,
}
use batos_os.Ring.Valid.{contents}
use batos_os.Kernel.{Kernel, is_ready, is_running, state_of}
use batos_os.Ownership.{Owned}
use batos_os.RunQueue
use batos_os.RunQueue.Fifo
use batos_os.RunQueue.Refine.{peek_refines}
use batos_os.WaitQueue
use batos_os.Dispatch.{returned, resolve_target}
use batos_os.Scheduler.{peek_next}
use batos_os.Scheduler.Yield.{Atomic}
use batos_os.Blocking.{block}
use batos_os.Blocking.Admit.{Admitted}
use batos_os.Blocking.Block.{block_blocks, block_stranded}

-- The guards of task_block, in its order, and the error of the first that refuses.
block_error : Kernel → (t q : Ptr) → ℕ
block_error k t q =
    if (t == null) || (q == null)
    then 1
    else if not (k.current == t)
    then 2
    else if not (is_running (state_of k t))
    then 3
    else if not ((k.tasks t).wait_queue == null)
    then 4
    else if not k.interrupts
    then 5
    else if not (k.wait_queues q).initialized
    then 6
    else if leb 256 (k.wait_queues q).count
    then 7
    else if WaitQueue.contains (record k { interrupts = false }) q t
    then 8
    else if RunQueue.peek k.runqueue == null
    then 9
    else if not (is_ready (state_of k (RunQueue.peek k.runqueue)))
    then 10
    else 0

block_refused :
    (k : Kernel) (t q : Ptr)
    → block_error k t q ≢ 0
    → block k t q ≡ (returned (err (block_error k t q)), k)
unfolding block block_error peek_next
block_refused k t q h = ground arith

error_of_empty :
    {k : Kernel} (t q : Ptr) → Owned k → contents k.runqueue ≡ [] → block_error k t q ≢ 0
unfolding block_error Fifo.peek
error_of_empty {k} t q o e = ground (arith, peek_refines o.run_queue.valid, ap Fifo.peek e)

passed :
    {k : Kernel} (t q n : Ptr) (rest : List Ptr)
    → Owned k
    → block_error k t q ≡ 0
    → contents k.runqueue ≡ n ∷ rest
    → (k.current ≡ t) × Admitted k q n rest
unfolding block_error
passed {k} t q n rest o h list = ground arith

block_passed :
    {k : Kernel} (t q : Ptr) (xs : List Ptr)
    → Owned k
    → (block k t q).0 ≢ returned (err 13)
    → contents k.runqueue ≡ xs
    → block_error k t q ≡ 0
    → Atomic k (block k t q)
block_passed t q [] o whole list h = absurd (error_of_empty t q o list h)
block_passed {k} t q (n ∷ rest) o whole list h =
    let (e, a) = passed t q n rest o h list in
    elim (Bool-cases (failed (resolve_target k n).0)) [
      | inl bad ↦
          absurd (whole (ap (λ (c : Ptr). (block k c q).0) (sym e) ∙ (block_stranded a bad).0))
      | inr good ↦ let done = block_blocks a good in inl (rw (← e) (done.0, done.1.owned))
    ]

-- Under the ownership invariant, a task_block of any task on any queue that does not return -13
-- switches and keeps the invariant, or fails and changes nothing.
pub block-Atomic :
    {k : Kernel} (t q : Ptr)
    → Owned k
    → (block k t q).0 ≢ returned (err 13)
    → Atomic k (block k t q)
block-Atomic {k} t q o whole = elim (Bool-cases (block_error k t q == 0)) [
  | inl none_refuses ↦ block_passed t q (contents k.runqueue) o whole refl (ground arith)
  | inr refused ↦ inr (block_error k t q, block_refused k t q (ground arith))
]
