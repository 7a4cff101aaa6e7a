-- ===== src/WaitQueue/Owns.antt =====
-- The wait queues' claims on their tasks, when one task joins a queue or leaves it.
use batos_os.Prelude.{
  ℕ, ◌≡◌, ◌≢◌, ap, ◌<◌, inl, inr, true, false, Ptr, null, Mem, [], ◌∷◌, arith, some, Option-cases,
  mem, NoDup, store, mem-append, mem_one, snoc-NoDup, erase-NoDup, mem_of_erase, mem-erase_ne,
  not-mem-erase,
}
use batos_os.Ring
use batos_os.Ring.{Ring}
use batos_os.Ring.Valid.{contents, contents-push, push-IsValid}
use batos_os.Ring.Search.{find-Found, find-none, find-mem}
use batos_os.Ring.Remove.{remove_at-IsValid, contents-remove_at_found}
use batos_os.Kernel.{Kernel, Task, blocked}
use batos_os.WaitQueue.{contains}
use batos_os.Ownership.{WaitQueuesOwn}

-- A task in no wait queue joins one.
module _ {tasks : Mem Task} {queues : Mem Ring} (q t : Ptr) (task : Task)
    (o : WaitQueuesOwn tasks queues) (i : (queues q).initialized ≡ true) where
  pub push-WaitQueuesOwn :
      ((p : Ptr) → (queues p).initialized ≡ true → mem t (contents (queues p)) ≡ false)
      → q ≢ null
      → t ≢ null
      → (queues q).count < 256
      → task.state ≡ blocked
      → task.wait_queue ≡ q
      → WaitQueuesOwn (store tasks t task) (store queues q (Ring.push (queues q) t))
  unfolding store
  push-WaitQueuesOwn out ne tne lt st own =
      let v = o.valid q i in
      let list = contents-push t v lt in
      record {
        valid = λ p j. ground (arith, o.valid p, push-IsValid t v lt);
        distinct = λ p j. ground (
          arith,
          o.distinct p,
          ap NoDup list,
          snoc-NoDup t (contents (queues q)) (o.distinct q i) (out q i),
        );
        all_blocked = λ p u j m. ground (
          arith,
          out p,
          o.all_blocked p u,
          ap (mem u) list,
          mem-append u (contents (queues q)) (t ∷ []),
          mem_one u t,
        );
        owner = λ u h. ground (
          arith,
          o.owner u,
          ap (mem u) list,
          mem-append u (contents (queues q)) (t ∷ []),
          mem_one u t,
          v.ready,
          (push-IsValid t v lt).ready,
        );
      }

-- The first occurrence of a task leaves its queue, and the task has no owner any more.
module _ {tasks : Mem Task} {queues : Mem Ring} (q t : Ptr) (j : ℕ) (task : Task)
    (o : WaitQueuesOwn tasks queues) (i : (queues q).initialized ≡ true)
    (found : Ring.find (queues q) t ≡ some j) where
  pub remove-WaitQueuesOwn :
      task.wait_queue ≡ null
      → WaitQueuesOwn (store tasks t task) (store queues q (Ring.remove_at (queues q) j))
  unfolding store
  remove-WaitQueuesOwn free =
      let v = o.valid q i in
      let v' = remove_at-IsValid j v (find-Found (queues q) t j found).index_lt in
      let list = contents-remove_at_found t j v found in
      let held = find-mem (queues q) t found in
      record {
        valid = λ p h. ground (arith, o.valid p, v');
        distinct = λ p h. ground (
          arith,
          o.distinct p,
          ap NoDup list,
          erase-NoDup t (contents (queues q)) (o.distinct q i),
        );
        all_blocked = λ p u h m. ground (
          arith,
          o.all_blocked q t i held,
          o.all_blocked p u,
          o.all_blocked q u,
          ap (mem u) list,
          not-mem-erase t (contents (queues q)) (o.distinct q i),
          mem_of_erase u t (contents (queues q)),
        );
        owner = λ u h.
            ground
              (arith, o.owner u, ap (mem u) list, mem-erase_ne u t (contents (queues q)), v'.ready);
      }

-- wait_queue_contains looks the task up in the queue's list.
pub contains_lem :
    (k : Kernel) (q t : Ptr)
    → q ≢ null
    → t ≢ null
    → (k.wait_queues q).initialized ≡ true
    → contains k q t ≡ mem t (contents (k.wait_queues q))
unfolding contains
contains_lem k q t ne tne i = elim (Option-cases (Ring.find (k.wait_queues q) t)) [
  | inl e ↦ rw e (ground (arith, find-none (k.wait_queues q) t e))
  | inr (j, e) ↦ rw e (ground (arith, find-mem (k.wait_queues q) t e))
]
