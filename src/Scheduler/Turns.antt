-- ===== src/Scheduler/Turns.antt =====
-- Repeated yields: every queued task has its turn.
use batos_os.Prelude.{
  ℕ, zero, suc, ◌≡◌, ◌≢◌, sym, ap, ◌∙◌, ◌<◌, inl, inr, true, false, Ptr, null, List, [], ◌∷◌, ◌++◌,
  arith, failed, mem, mem-append, mem_one, mem_cons_self, length, append_assoc, length-append,
  store, ◌==◌, Bool-cases,
}
use batos_os.Ring.Valid.{contents, length-contents}
use batos_os.Kernel.{Kernel, resume_context}
use batos_os.Ownership.{Owned}
use batos_os.Dispatch.{
  Target, nowhere, to_context, to_frame, resolve_target, switch_and_enable, switch_to_interrupt,
  save_context,
}
use batos_os.Scheduler.{yield, commit}
use batos_os.Scheduler.Yield.{
  Yielded, yield_rotates, yielded, masked, resolve_masked, Ready-of_Owned, yield-switched,
}

-- Every queued task has a continuation that resolves.
abbrev pub QueueResolves : Kernel → Type 0
QueueResolves k =
    (t : Ptr) → mem t (contents k.runqueue) ≡ true → failed (resolve_target k t).0 ≡ false

-- The state in which the last of `n` calls of scheduler_yield, one after the other, leaves off.
unfoldable pub yields : ℕ → Kernel → Kernel
yields zero k = k
yields (suc n) k = let (o, k') = yield k in yields n k'

resolve-yielded :
    (k : Kernel) (n u : Ptr) (target : Target)
    → k.current ≢ u
    → resolve_target (yielded k n target) u ≡ resolve_target k u
unfolding resolve_target commit store switch_and_enable switch_to_interrupt save_context
resolve-yielded k n u nowhere ne = ground arith
resolve-yielded k n u (to_context t) ne = ground arith
resolve-yielded k n u (to_frame f) ne = ground arith

pub resumable :
    (k : Kernel) (t : Ptr)
    → t ≢ null
    → (k.tasks t).resume_authority ≡ resume_context
    → failed (resolve_target k t).0 ≡ false
unfolding resolve_target
resumable k t ne e = ground arith

current_is : {a : Ptr} (t : Ptr) → (a == t) ≡ true → a ≡ t
current_is t e = ground arith

-- The conditions that a yield needs, and that it keeps.
record Turning (k : Kernel) (xs : List Ptr) : Type 0 where
  owned : Owned k
  busy : k.current ≢ null
  room : length xs < 256
  list : contents k.runqueue ≡ xs
  resolves : QueueResolves k

module _ {k : Kernel} {n : Ptr} {rest : List Ptr} (w : Turning k (n ∷ rest)) where
  n_in : mem n (contents k.runqueue) ≡ true
  n_in = rw w.list (mem_cons_self n rest)

  room : k.runqueue.count < 256
  room = ground (arith, w.room, w.list, length-contents k.runqueue)

  target : Target
  target = (resolve_target (masked k) n).1

  yield_eq : (yield k).1 ≡ yielded k n target
  unfolding target
  yield_eq =
      ap (λ r. r.1)
        (yield-switched w.owned (Ready-of_Owned w.owned w.busy w.list)
          (rw (resolve_masked k n) (w.resolves n n_in)) room)

  rotates : Yielded k n rest (yield k).1
  rotates = (yield_rotates w.owned w.busy w.list room (w.resolves n n_in)).1

  stays_queued :
      (t : Ptr)
      → k.current ≢ t
      → mem t (rest ++ k.current ∷ []) ≡ true
      → mem t (contents k.runqueue) ≡ true
  unfolding mem
  stays_queued t ne m =
      rw w.list (ground (arith, mem-append t rest (k.current ∷ []), mem_one t k.current))

  still-resolves :
      (t : Ptr)
      → mem t (rest ++ k.current ∷ []) ≡ true
      → failed (resolve_target (yield k).1 t).0 ≡ false
  still-resolves t m = elim (Bool-cases (k.current == t)) [
    | inl self ↦
        resumable (yield k).1 t (ground (arith, w.owned.cpu_owner.current_runs w.busy, w.busy))
          (rw (← current_is t self) rotates.1)
    | inr other ↦
        let ne : k.current ≢ t = ground arith in
        rw (yield_eq, resolve-yielded k n t target ne) (w.resolves t (stays_queued t ne m))
  ]

  turn : Turning (yield k).1 (rest ++ k.current ∷ [])
  turn =
      let (e, resumes) = rotates in
      record {
        owned = e.owned;
        busy = rw e.current (w.owned.run_queue.all_ready n n_in).1;
        room = ground (arith, w.room, length-append rest (k.current ∷ []));
        list = e.queue;
        resolves = λ t m. still-resolves t (sym (ap (mem t) e.queue) ∙ m);
      }

turns :
    (xs : List Ptr) {k : Kernel} {t : Ptr} (ys : List Ptr)
    → Turning k (xs ++ t ∷ ys)
    → (yields (suc (length xs)) k).current ≡ t
unfolding yields
turns [] ys w = (rotates w).0.current
turns (x ∷ xs) {k} {t} ys w =
    turns xs (ys ++ k.current ∷ []) (rw (← append_assoc xs (t ∷ ys) (k.current ∷ [])) (turn w))

-- Under the invariant, with room in the run queue and a resumable continuation of every queued
-- task, the task behind xs in the queue is the current one after length xs + 1 yields.
pub yields_reach :
    {k : Kernel} {t : Ptr} (xs ys : List Ptr)
    → Owned k
    → k.current ≢ null
    → k.runqueue.count < 256
    → QueueResolves k
    → contents k.runqueue ≡ xs ++ t ∷ ys
    → (yields (suc (length xs)) k).current ≡ t
yields_reach {k} xs ys o ne lt good list = turns xs ys (record {
  owned = o;
  busy = ne;
  room = ground (arith, lt, ap length list, length-contents k.runqueue);
  list = list;
  resolves = good;
})
