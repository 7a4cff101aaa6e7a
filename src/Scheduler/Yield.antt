-- ===== src/Scheduler/Yield.antt =====
-- scheduler_yield, under the ownership invariant.
use batos_os.Prelude.{
  ℕ, ◌≡◌, ◌≢◌, ◌⊎◌, refl, ap, ◌∙◌, ◌<◌, inl, inr, true, false, Ptr, null, List, [], ◌∷◌, arith, err,
  failed, store, ◌==◌, Bool-cases, ltb,
}
use batos_os.Ring.Valid.{contents}
use batos_os.Kernel.{resume_context, Kernel, set_task}
use batos_os.Ownership.{Owned, store-Owned, Owned-of_same}
use batos_os.RunQueue.Steps.{peek_front}
use batos_os.RunQueue.Fifo
use batos_os.RunQueue.Refine.{peek_refines}
use batos_os.Dispatch.{Outcome, returned, switched, Target, resolve_target}
use batos_os.Dispatch.Arrive.{IsResolved, arrive, resolve_target-IsResolved, dispatch_resolved}
use batos_os.Dispatch.Keeps.{arrive-Owned, arrive-SameClaims}
use batos_os.Scheduler.{yield, yield_to, peek_next, commit, hand_off}
use batos_os.Scheduler.Rotate.{
  rotated, Ready, c-ne-n, n_ready, yield_to-room, yield_to-full, Exchanged, commit-Exchanged,
}

pub hand_off_resolved :
    (k : Kernel) (c : Ptr) (target : Target)
    → c ≢ null
    → IsResolved target
    → hand_off k c target ≡ (switched, arrive k c target)
unfolding hand_off
hand_off_resolved k c t ne h = ground (arith, dispatch_resolved k c t ne h)

pub Ready-of_Owned :
    {k : Kernel} {n : Ptr} {rest : List Ptr}
    → Owned k
    → k.current ≢ null
    → contents k.runqueue ≡ n ∷ rest
    → Ready k k.current n rest
Ready-of_Owned o ne list = record {
  owns = o.run_queue;
  list = list;
  c_running = o.cpu_owner.current_runs ne;
  c_ne_null = ne;
}

abbrev pub masked : Kernel → Kernel
masked k = record k { interrupts = false }

pub resolve_masked : (k : Kernel) (t : Ptr) → resolve_target (masked k) t ≡ resolve_target k t
unfolding resolve_target
resolve_masked k t = ground arith

masked-Ready :
    {k : Kernel} {c n : Ptr} {rest : List Ptr} → Ready k c n rest → Ready (masked k) c n rest
masked-Ready r = record {
  owns = r.owns;
  list = r.list;
  c_running = r.c_running;
  c_ne_null = r.c_ne_null;
}

module _ {k : Kernel} {n : Ptr} {rest : List Ptr} (r : Ready k k.current n rest) where
  peek_n : peek_next (masked k) ≡ n
  unfolding peek_next
  peek_n = peek_front n rest r.owns.valid r.list

  -- The tests before the exchange pass, but for the resolution of the target.
  yield_resolved :
      failed (resolve_target (masked k) n).0 ≡ false
      → yield k ≡ yield_to k.interrupts (resolve_target (masked k) n).1 (masked k) k.current
  unfolding yield
  yield_resolved res = ground (arith, r.c_running, r.c_ne_null, peek_n, n_ready r)

  yield_unresolved : failed (resolve_target (masked k) n).0 ≡ true → yield k ≡ (returned (err 5), k)
  unfolding yield
  yield_unresolved res = ground (arith, r.c_running, r.c_ne_null, peek_n, n_ready r)

-- The state in which `n` starts after a yield.
abbrev leaving : Kernel → Ptr → Kernel
leaving k n =
    let k5 = commit (rotated (masked k) k.current n) n in
    set_task k5 k.current (record (k5.tasks k.current) { resume_authority = resume_context })

abbrev pub yielded : Kernel → Ptr → Target → Kernel
yielded k n target = arrive (leaving k n) k.current target

-- What a yield from `k` to `n` has done, when it switches: the exchange, and the task that gave way
-- is to resume by its saved context.
abbrev pub Yielded : Kernel → Ptr → List Ptr → Kernel → Type 0
Yielded k n rest k' =
    Exchanged k n rest k' × ((k'.tasks k.current).resume_authority ≡ resume_context)

module _ {k : Kernel} {n : Ptr} {rest : List Ptr} (o : Owned k) (r : Ready k k.current n rest) where
  masked-Owned : Owned (masked k)
  masked-Owned = Owned-of_same o refl refl refl refl

  leaving-Exchanged : k.runqueue.count < 256 → Exchanged k n rest (leaving k n)
  unfolding store
  leaving-Exchanged lt =
      let e = commit-Exchanged masked-Owned (masked-Ready r) lt in
      record {
        current = e.current;
        queue = e.queue;
        runs = ground (arith, c-ne-n r, e.runs);
        gives_way = ground (arith, e.gives_way);
        counted = e.counted;
        owned = store-Owned k.current _ e.owned refl refl;
      }

  leaving-resumes : ((leaving k n).tasks k.current).resume_authority ≡ resume_context
  unfolding commit store
  leaving-resumes = ground arith

  pub yielded-Yielded :
      (target : Target) → k.runqueue.count < 256 → Yielded k n rest (yielded k n target)
  yielded-Yielded t lt =
      let same = arrive-SameClaims (leaving k n) k.current t in
      let e = leaving-Exchanged lt in
      (
        record {
          current = same.current ∙ e.current;
          queue = ap contents same.runqueue ∙ e.queue;
          runs = same.states n ∙ e.runs;
          gives_way = same.states k.current ∙ e.gives_way;
          counted = same.dispatch_count ∙ e.counted;
          owned = arrive-Owned k.current t e.owned;
        },
        same.authorities k.current ∙ leaving-resumes,
      )

  pub yield-switched :
      failed (resolve_target (masked k) n).0 ≡ false
      → k.runqueue.count < 256
      → yield k ≡ (switched, yielded k n (resolve_target (masked k) n).1)
  yield-switched res lt =
      yield_resolved r res
      ∙ yield_to-room (masked-Ready r) k.interrupts _ lt
      ∙ hand_off_resolved _ k.current _ r.c_ne_null (resolve_target-IsResolved (masked k) n res)

  yield-full :
      failed (resolve_target (masked k) n).0 ≡ false
      → k.runqueue.count ≡ 256
      → yield k ≡ (returned (err 6), k)
  yield-full res full = yield_resolved r res ∙ yield_to-full (masked-Ready r) k.interrupts _ full

-- Under the ownership invariant, with room in the run queue, the yield of a current task with a
-- resumable successor is a round-robin step: the successor is current and RUNNING, the caller is
-- READY behind the rest of the queue, to resume by its saved context, one more dispatch is
-- counted, and the invariant holds.
pub yield_rotates :
    {k : Kernel} {n : Ptr} {rest : List Ptr}
    → Owned k
    → k.current ≢ null
    → contents k.runqueue ≡ n ∷ rest
    → k.runqueue.count < 256
    → failed (resolve_target k n).0 ≡ false
    → let (o, k') = yield k in (o ≡ switched) × Yielded k n rest k'
yield_rotates {k} {n} {rest} o ne list lt res =
    let r = Ready-of_Owned o ne list in
    let res' : failed (resolve_target (masked k) n).0 ≡ false = rw (resolve_masked k n) res in
    rw (yield-switched o r res' lt) (refl, yielded-Yielded o r (resolve_target (masked k) n).1 lt)

yield_idle : (k : Kernel) → k.current ≡ null → yield k ≡ (returned (err 1), k)
unfolding yield
yield_idle k e = ground arith

yield_alone :
    {k : Kernel}
    → Owned k
    → k.current ≢ null
    → contents k.runqueue ≡ []
    → yield k ≡ (returned (err 3), k)
unfolding yield peek_next Fifo.peek
yield_alone {k} o ne e =
    ground (arith, o.cpu_owner.current_runs ne, peek_refines o.run_queue.valid, ap Fifo.peek e)

-- What a call may do: switch and keep the invariant, or fail with the state as it was.
abbrev pub Atomic : Kernel → Outcome × Kernel → Type 0
Atomic k r = ((r.0 ≡ switched) × Owned r.1) ⊎ ((e : ℕ) × (r ≡ (returned (err e), k)))

yield_busy :
    {k : Kernel} (xs : List Ptr)
    → Owned k
    → k.current ≢ null
    → contents k.runqueue ≡ xs
    → Atomic k (yield k)
yield_busy [] o ne list = inr (3, yield_alone o ne list)
yield_busy {k} (n ∷ rest) o ne list =
    let r = Ready-of_Owned o ne list in
    elim (Bool-cases (failed (resolve_target (masked k) n).0)) [
      | inl bad ↦ inr (5, yield_unresolved r bad)
      | inr good ↦ elim (Bool-cases (ltb k.runqueue.count 256)) [
        | inl lt ↦
            let room : k.runqueue.count < 256 = ground arith in
            inl (rw (yield-switched o r good room) (refl, (yielded-Yielded o r _ room).0.owned))
        | inr ge ↦ inr (6, yield-full o r good (ground (arith, o.run_queue.valid.fits)))
      ]
    ]

-- Under the ownership invariant a yield switches and keeps the invariant, or returns an error with
-- the state exactly as it was, on every branch.
pub yield-Atomic : {k : Kernel} → Owned k → Atomic k (yield k)
yield-Atomic {k} o = elim (Bool-cases (k.current == null)) [
  | inl idle ↦ inr (1, yield_idle k (ground arith))
  | inr busy ↦ yield_busy (contents k.runqueue) o (ground arith) refl
]
