-- ===== src/RunQueue/Refine.antt =====
-- The run queue of the code behaves as the list of `Fifo`.
use batos_os.Prelude.{
  ◌≡◌, refl, ap, ◌∙◌, inl, inr, List, [], ◌∷◌, arith, Ptr, Mem, Option-cases, length,
}
use batos_os.Ring
use batos_os.Ring.{Ring}
use batos_os.Ring.Valid.{
  IsValid, contents, length-contents, empty-IsValid, contents-empty, push-IsValid, contents-push,
  pop-IsValid, Ring-cases,
}
use batos_os.Ring.Search.{find-none, find-mem, find-Found}
use batos_os.Ring.Remove.{remove_at-IsValid, contents-remove_at_found}
use batos_os.Kernel.{Task}
use batos_os.RunQueue
use batos_os.RunQueue.Fifo
use batos_os.RunQueue.Fifo.{
  Op, enqueues, dequeues, peeks, counts, removes, asks, Reply, status, pointer, number, answer,
}

-- `runqueue_contains` looks the pointer up in the list; NULL is in no queue.
pub contains_refines :
    {q : Ring} (t : Ptr) → IsValid q → RunQueue.contains q t ≡ Fifo.contains (contents q) t
unfolding RunQueue.contains Fifo.contains
contains_refines {q} t v = elim (Option-cases (Ring.find q t)) [
  | inl e ↦ rw e (ground (arith, v.ready, find-none q t e))
  | inr (j, e) ↦ rw e (ground (arith, v.ready, find-mem q t e))
]

-- `runqueue_enqueue` answers as the list does, and leaves the queue holding that list.
pub enqueue_refines :
    {q : Ring} (tasks : Mem Task) (t : Ptr)
    → IsValid q
    → let (s, q') = RunQueue.enqueue tasks q t in
      ((s, contents q') ≡ Fifo.enqueue tasks (contents q) t) × IsValid q'
unfolding RunQueue.enqueue Fifo.enqueue Fifo.contains
enqueue_refines {q} tasks t v =
    ground
      (arith, v.ready, contains_refines t v, length-contents q, contents-push t v, push-IsValid t v)

-- `runqueue_peek` returns the oldest task, or NULL.
pub peek_refines : {q : Ring} → IsValid q → RunQueue.peek q ≡ Fifo.peek (contents q)
unfolding RunQueue.peek Fifo.peek
peek_refines {q} v = ground (arith, v.ready, Ring-cases v)

-- `runqueue_dequeue` returns it and takes it off the list.
pub dequeue_refines :
    {q : Ring}
    → IsValid q
    → let (p, q') = RunQueue.dequeue q in
      ((p, contents q') ≡ Fifo.dequeue (contents q)) × IsValid q'
unfolding RunQueue.dequeue Fifo.dequeue
dequeue_refines {q} v = ground (arith, v.ready, Ring-cases v, pop-IsValid v)

-- `runqueue_remove` takes the task off the list and keeps the order of the others.
pub remove_refines :
    {q : Ring} (t : Ptr)
    → IsValid q
    → let (s, q') = RunQueue.remove q t in
      ((s, contents q') ≡ Fifo.remove (contents q) t) × IsValid q'
unfolding RunQueue.remove Fifo.remove
remove_refines {q} t v = elim (Option-cases (Ring.find q t)) [
  | inl e ↦ rw e (ground (arith, v.ready, find-none q t e))
  | inr (j, e) ↦
      let f = find-Found q t j e in
      rw e (
        ground (
          arith,
          v.ready,
          f.index_lt,
          find-mem q t e,
          contents-remove_at_found t j v e,
          remove_at-IsValid j v f.index_lt,
        ))
]

pub count_refines : {q : Ring} → IsValid q → RunQueue.count q ≡ length (contents q)
unfolding RunQueue.count
count_refines {q} v = ground (arith, v.ready, length-contents q)

-- A call of the code, as `Fifo.step` is one of the list.
unfoldable pub step : Ring → Op → Reply × Ring
step q (enqueues tasks t) = let (s, q') = RunQueue.enqueue tasks q t in (status s, q')
step q dequeues = let (p, q') = RunQueue.dequeue q in (pointer p, q')
step q peeks = (pointer (RunQueue.peek q), q)
step q counts = (number (RunQueue.count q), q)
step q (removes t) = let (s, q') = RunQueue.remove q t in (status s, q')
step q (asks t) = (answer (RunQueue.contains q t), q)

unfoldable pub run : Ring → List Op → List Reply
unfolding step
run q [] = []
run q (op ∷ ops) = let (r, q') = step q op in r ∷ run q' ops

step_refines :
    {q : Ring} (op : Op)
    → IsValid q
    → let (r, q') = step q op in ((r, contents q') ≡ Fifo.step (contents q) op) × IsValid q'
unfolding step Fifo.step
step_refines (enqueues tasks t) v = ground (arith, enqueue_refines tasks t v)
step_refines dequeues v = ground (arith, dequeue_refines v)
step_refines peeks v = ground (arith, peek_refines v)
step_refines counts v = ground (arith, count_refines v)
step_refines (removes t) v = ground (arith, remove_refines t v)
step_refines (asks t) v = ground (arith, contains_refines t v)

run_refines_from : (ops : List Op) {q : Ring} → IsValid q → run q ops ≡ Fifo.run (contents q) ops
unfolding run Fifo.run
run_refines_from [] v = refl
run_refines_from (op ∷ ops) v =
    ground (arith, step_refines op v, run_refines_from ops (step_refines op v).1)

-- From runqueue_init on, every sequence of calls of the ring answers as the list does.
pub run_refines : (ops : List Op) → run (RunQueue.init).1 ops ≡ Fifo.run [] ops
unfolding RunQueue.init
run_refines ops = run_refines_from ops empty-IsValid ∙ ap (λ xs. Fifo.run xs ops) contents-empty
