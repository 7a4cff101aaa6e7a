-- ===== src/RunQueue/Steps.antt =====
-- The run queue's operations at a queue whose list is known, and what they keep of its claim on
-- the tasks.
use batos_os.Prelude.{
  ◌≡◌, ◌≢◌, ◌∙◌, ap, ◌<◌, ◌||◌, inl, inr, true, false, not, Ptr, null, Mem, List, ◌∷◌, [], arith,
  ret, err, leb, if◌then◌else◌, mem, NoDup, mem-append, mem_one, snoc-NoDup, ◌==◌, length,
  Bool-cases,
}
use batos_os.Ring
use batos_os.Ring.{Ring}
use batos_os.Ring.Valid.{
  IsValid, contents, contents-push, push-IsValid, pop-IsValid, Ring-cases, length-contents,
}
use batos_os.Kernel.{Task, ready, is_ready}
use batos_os.Ownership.{RunQueueOwns, IsIn}
use batos_os.RunQueue
use batos_os.RunQueue.Fifo
use batos_os.RunQueue.Refine.{contains_refines, peek_refines}

pub enqueue_fresh :
    (tasks : Mem Task) {q : Ring} (t : Ptr)
    → IsValid q
    → t ≢ null
    → IsIn ready tasks t
    → mem t (contents q) ≡ false
    → RunQueue.enqueue tasks q t ≡ (if leb 256 q.count then (err 1, q) else (ret 0, Ring.push q t))
unfolding RunQueue.enqueue Fifo.contains
enqueue_fresh tasks t v ne r out = ground (arith, v.ready, contains_refines t v)

pub push-RunQueueOwns :
    {tasks : Mem Task} {q : Ring} (t : Ptr)
    → RunQueueOwns tasks q
    → t ≢ null
    → IsIn ready tasks t
    → mem t (contents q) ≡ false
    → q.count < 256
    → RunQueueOwns tasks (Ring.push q t)
push-RunQueueOwns {tasks} {q} t o ne r out lt =
    let list = contents-push t o.valid lt in
    record {
      valid = push-IsValid t o.valid lt;
      distinct = rw list (snoc-NoDup t (contents q) o.distinct out);
      all_ready = λ u m.
          ground (
            arith,
            o.all_ready u,
            ap (mem u) list,
            mem-append u (contents q) (t ∷ []),
            mem_one u t,
          );
    }

module _ {q : Ring} (n : Ptr) (rest : List Ptr) (v : IsValid q) (list : contents q ≡ n ∷ rest) where
  pub nonempty : q.count ≢ 0
  nonempty z = ground (arith, length-contents q, ap length list)

  pub peek_front : RunQueue.peek q ≡ n
  unfolding Fifo.peek
  peek_front = peek_refines v ∙ ap Fifo.peek list

  pub dequeue_front : (RunQueue.dequeue q ≡ (n, Ring.pop q)) × (contents (Ring.pop q) ≡ rest)
  unfolding RunQueue.dequeue
  dequeue_front = ground (arith, v.ready, Ring-cases v)

pub pop-RunQueueOwns :
    {tasks : Mem Task} {q : Ring} (n : Ptr) (rest : List Ptr)
    → RunQueueOwns tasks q
    → contents q ≡ n ∷ rest
    → RunQueueOwns tasks (Ring.pop q) × (mem n (contents (Ring.pop q)) ≡ false)
unfolding mem
pop-RunQueueOwns {tasks} {q} n rest o list =
    let left = (dequeue_front n rest o.valid list).1 in
    let both : NoDup (n ∷ rest) = rw list at o.distinct in
    (
      record {
        valid = pop-IsValid o.valid (nonempty n rest o.valid list);
        distinct = rw left both.1;
        all_ready = λ u m. o.all_ready u (ground (arith, ap (mem u) list, ap (mem u) left));
      },
      rw left both.0,
    )

enqueue_refused :
    (tasks : Mem Task) {q : Ring} (t : Ptr)
    → IsValid q
    → ((t == null) || not (is_ready (tasks t).state) || leb 256 q.count || mem t (contents q))
      ≡ true
    → RunQueue.enqueue tasks q t ≡ (err 1, q)
unfolding RunQueue.enqueue Fifo.contains
enqueue_refused tasks t v h = ground (arith, v.ready, contains_refines t v)

-- Whatever is enqueued, the queue's claim on the tasks stays.
pub enqueue-RunQueueOwns :
    {tasks : Mem Task} {q : Ring} (t : Ptr)
    → RunQueueOwns tasks q
    → RunQueueOwns tasks (RunQueue.enqueue tasks q t).1
enqueue-RunQueueOwns {tasks} {q} t o =
    elim (Bool-cases
      ((t == null) || not (is_ready (tasks t).state) || leb 256 q.count || mem t (contents q))) [
        | inl no_entry ↦ rw (enqueue_refused tasks t o.valid no_entry) o
        | inr entry ↦
            let ne : t ≢ null = ground arith in
            let r : IsIn ready tasks t = ground arith in
            let out : mem t (contents q) ≡ false = ground arith in
            let lt : q.count < 256 = ground arith in
            let room : leb 256 q.count ≡ false = ground arith in
            rw (enqueue_fresh tasks t o.valid ne r out, room) (push-RunQueueOwns t o ne r out lt)
      ]
