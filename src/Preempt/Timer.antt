-- ===== src/Preempt/Timer.antt =====
-- Preemption, under the ownership invariant.
use batos_os.Prelude.{
  ◌≡◌, ◌≢◌, ◌⊎◌, refl, sym, ap, ◌∙◌, ◌<◌, inl, inr, Bool, true, false, Ptr, null, List, [], ◌∷◌,
  arith, Status, ret, err, failed, store, store_self, ◌==◌, Bool-cases, ltb,
}
use batos_os.Ring.Valid.{contents}
use batos_os.Kernel.{ready, Kernel}
use batos_os.Ownership.{Owned, store-Owned}
use batos_os.RunQueue.Fifo
use batos_os.RunQueue.Refine.{peek_refines}
use batos_os.RunQueue.Steps.{peek_front}
use batos_os.Task.{transition}
use batos_os.Dispatch.{Target, to_frame, resolve_target}
use batos_os.Scheduler.{peek_next, commit}
use batos_os.Scheduler.Rotate.{
  Ready, rotated, c-ne-n, n_ready, enqueue_c, take_n, with_state_undo, Exchanged, commit-Exchanged,
}
use batos_os.Scheduler.Yield.{Ready-of_Owned}
use batos_os.Preempt.{preempt_to, preempt_current, save_frame, handle_timer}

module _ {k : Kernel} {c n : Ptr} {rest : List Ptr} (r : Ready k c n rest) where
  preempt_to-room : k.runqueue.count < 256 → preempt_to k c n ≡ (ret 0, n, commit (rotated k c n) n)
  unfolding preempt_to transition store
  preempt_to-room lt =
      ground (arith, enqueue_c r, take_n r lt, n_ready r, c-ne-n r, r.c_running, r.c_ne_null)

  preempt_to-full : k.runqueue.count ≡ 256 → preempt_to k c n ≡ (err 6, null, k)
  unfolding preempt_to transition
  preempt_to-full full = ground (
    arith,
    enqueue_c r,
    r.c_running,
    r.c_ne_null,
    store_self k.tasks c (record (k.tasks c) { state = ready }),
    with_state_undo k.tasks c ready r.c_running,
  )

module _ {k : Kernel} {n : Ptr} {rest : List Ptr} (r : Ready k k.current n rest) where
  preempt_head : preempt_current k n ≡ preempt_to k k.current n
  unfolding preempt_current peek_next
  preempt_head =
      ground (arith, r.c_running, r.c_ne_null, peek_front n rest r.owns.valid r.list, n_ready r)

-- Under the invariant, with room in the run queue, a preemption that finds the expected task at
-- the front exchanges it with the current one, returns 0 and that task, and keeps the invariant.
pub preempt_exchanges :
    {k : Kernel} {n : Ptr} {rest : List Ptr}
    → Owned k
    → k.current ≢ null
    → contents k.runqueue ≡ n ∷ rest
    → k.runqueue.count < 256
    → let (s, p, k') = preempt_current k n in (s ≡ ret 0) × (p ≡ n) × Exchanged k n rest k'
preempt_exchanges {k} {n} {rest} o ne list lt =
    let r = Ready-of_Owned o ne list in
    rw (preempt_head r, preempt_to-room r lt) (refl, refl, commit-Exchanged o r lt)

preempt_full :
    {k : Kernel} {n : Ptr} {rest : List Ptr}
    → Owned k
    → k.current ≢ null
    → contents k.runqueue ≡ n ∷ rest
    → k.runqueue.count ≡ 256
    → preempt_current k n ≡ (err 6, null, k)
preempt_full o ne list full =
    let r = Ready-of_Owned o ne list in preempt_head r ∙ preempt_to-full r full

-- What the timer hands to the interrupt return: the interrupted frame with the current task kept, or
-- the continuation of the task that is current now.
abbrev pub Continues : Kernel → Ptr → Status × Target × Kernel → Type 0
Continues k frame (s, target, k') =
    (s ≡ ret 0)
    × Owned k'
    × (((target ≡ to_frame frame) × (k'.current ≡ k.current))
        ⊎ ((k'.current ≢ k.current) × (resolve_target k' k'.current ≡ (ret 0, target))))

save_frame-Owned : {k : Kernel} (frame : Ptr) → Owned k → Owned (save_frame k frame)
unfolding save_frame
save_frame-Owned {k} frame o = store-Owned k.current _ o refl refl

save_frame-current :
    (k : Kernel) (frame : Ptr)
    → ((save_frame k frame).current ≡ k.current) × ((save_frame k frame).runqueue ≡ k.runqueue)
unfolding save_frame
save_frame-current k frame = (refl, refl)

timer_alone :
    (k : Kernel) (frame : Ptr)
    → frame ≢ null
    → Owned k
    → k.current ≢ null
    → contents k.runqueue ≡ []
    → handle_timer true k frame ≡ (ret 0, to_frame frame, save_frame k frame)
unfolding handle_timer peek_next Fifo.peek
timer_alone k frame nf o ne list = ground (arith, peek_refines o.run_queue.valid, ap Fifo.peek list)

-- The state `k1` after the frame is saved, with `n` first in its queue.
module _ (k k1 : Kernel) (frame : Ptr) {n : Ptr} {rest : List Ptr} (nf : frame ≢ null)
    (ne : k.current ≢ null) (saved : save_frame k frame ≡ k1) (r : Ready k1 k1.current n rest)
    (o : Owned k1) (same : k1.current ≡ k.current) where
  timer_peek : peek_next k1 ≡ n
  unfolding peek_next
  timer_peek = peek_front n rest r.owns.valid r.list

  timer_unresolved :
      failed (resolve_target k1 n).0 ≡ true
      → handle_timer true k frame ≡ (ret 0, to_frame frame, k1)
  unfolding handle_timer
  timer_unresolved bad = ground (arith, timer_peek, n_ready r)

  timer_full :
      failed (resolve_target k1 n).0 ≡ false
      → k1.runqueue.count ≡ 256
      → handle_timer true k frame ≡ (ret 0, to_frame frame, k1)
  unfolding handle_timer
  timer_full good full =
      ground (arith, timer_peek, n_ready r, preempt_head r, preempt_to-full r full)

  timer_room :
      failed (resolve_target k1 n).0 ≡ false
      → k1.runqueue.count < 256
      → handle_timer true k frame
        ≡ (ret 0, (resolve_target k1 n).1, commit (rotated k1 k1.current n) n)
  unfolding handle_timer
  timer_room good lt =
      ground (arith, timer_peek, n_ready r, c-ne-n r, preempt_head r, preempt_to-room r lt)

  resolve_commit :
      failed (resolve_target k1 n).0 ≡ false
      → resolve_target (commit (rotated k1 k1.current n) n) n ≡ (ret 0, (resolve_target k1 n).1)
  unfolding resolve_target commit store
  resolve_commit good = ground (arith, c-ne-n r)

  timer_front : Continues k frame (handle_timer true k frame)
  unfolding commit
  timer_front = elim (Bool-cases (failed (resolve_target k1 n).0)) [
    | inl bad ↦ rw (timer_unresolved bad) (refl, o, inl (refl, same))
    | inr good ↦ elim (Bool-cases (ltb k1.runqueue.count 256)) [
      | inl lt ↦ rw (timer_room good (ground arith)) (
        refl,
        (commit-Exchanged o r (ground arith)).owned,
        inr (λ e. c-ne-n r (same ∙ sym e), resolve_commit good),
      )
      | inr ge ↦
          rw (timer_full good (ground (arith, r.owns.valid.fits))) (refl, o, inl (refl, same))
    ]
  ]

timer_busy :
    (k : Kernel) (frame : Ptr) (xs : List Ptr)
    → frame ≢ null
    → Owned k
    → k.current ≢ null
    → contents k.runqueue ≡ xs
    → Continues k frame (handle_timer true k frame)
timer_busy k frame [] nf o ne list =
    rw (timer_alone k frame nf o ne list)
      (refl, save_frame-Owned frame o, inl (refl, (save_frame-current k frame).0))
timer_busy k frame (n ∷ rest) nf o ne list =
    let same = save_frame-current k frame in
    let o1 = save_frame-Owned frame o in
    let r1 : Ready (save_frame k frame) (save_frame k frame).current n rest =
      Ready-of_Owned o1 (rw same.0 ne) (rw same.1 list) in
    timer_front k (save_frame k frame) frame nf ne refl r1 o1 same.0

timer_idle :
    (k : Kernel) (frame : Ptr)
    → frame ≢ null
    → k.current ≡ null
    → handle_timer true k frame ≡ (ret 0, to_frame frame, k)
unfolding handle_timer
timer_idle k frame nf idle = ground arith

timer_disabled :
    (k : Kernel) (frame : Ptr)
    → frame ≢ null
    → handle_timer false k frame ≡ (ret 0, to_frame frame, k)
unfolding handle_timer
timer_disabled k frame nf = ground arith

-- Under the ownership invariant, for a frame that is not NULL, the timer handler returns 0, keeps
-- the invariant, and hands over either the interrupted frame with the current task unchanged, or
-- the resolved continuation of the new current task.
pub timer-Continues :
    {k : Kernel} (enabled : Bool) (frame : Ptr)
    → frame ≢ null
    → Owned k
    → Continues k frame (handle_timer enabled k frame)
timer-Continues {k} false frame nf o = rw (timer_disabled k frame nf) (refl, o, inl (refl, refl))
timer-Continues {k} true frame nf o = elim (Bool-cases (k.current == null)) [
  | inl idle ↦ rw (timer_idle k frame nf (ground arith)) (refl, o, inl (refl, refl))
  | inr busy ↦ timer_busy k frame (contents k.runqueue) nf o (ground arith) refl
]
