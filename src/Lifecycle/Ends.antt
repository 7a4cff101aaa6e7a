-- ===== src/Lifecycle/Ends.antt =====
-- Whatever the end of a task does: if it hands the processor over, the ownership invariant holds.
use batos_os.Prelude.{
  ◌≡◌, ◌≢◌, ◌⊎◌, refl, sym, ap, ◌∙◌, inl, inr, Bool, true, Ptr, null, List, [], ◌∷◌, arith, failed,
  ret, ◌==◌, Bool-cases,
}
use batos_os.Ring
use batos_os.Ring.{Ring}
use batos_os.Ring.Valid.{contents}
use batos_os.Kernel.{Kernel, is_managed}
use batos_os.Ownership.{Owned}
use batos_os.RunQueue.Fifo
use batos_os.RunQueue.Refine.{peek_refines}
use batos_os.Dispatch.{switched, resolve_target}
use batos_os.Scheduler.{peek_next, exit_current}
use batos_os.Lifecycle.{publish, hand_over, finish}
use batos_os.Lifecycle.Finish.{
  ended, publish_ok, finish_unmanaged, finish_managed, finish_unpublished, front-other,
  resolve_ended, hand_over_switched, arrived-Finished,
}

hand_over_unhandled :
    (flags : Bool) (k : Kernel) (t : Ptr)
    → k.exit_handler ≡ null
    → (hand_over flags k t).0 ≢ switched
unfolding hand_over
hand_over_unhandled flags k t e = ground (arith, e)

hand_over_empty :
    (flags : Bool) (k : Kernel) (t : Ptr) → peek_next k ≡ null → (hand_over flags k t).0 ≢ switched
unfolding hand_over exit_current
hand_over_empty flags k t e = ground (arith, e)

hand_over_unresolved :
    (flags : Bool) (k : Kernel) (t : Ptr)
    → failed (resolve_target k (peek_next k)).0 ≡ true
    → (hand_over flags k t).0 ≢ switched
unfolding hand_over exit_current
hand_over_unresolved flags k t e = ground (arith, e)

publish-cases : (k : Kernel) (t : Ptr) → ((publish k t).0 ≡ ret 0) ⊎ (failed (publish k t).0 ≡ true)
unfolding publish
publish-cases k t = elim (Bool-cases (failed (publish k t).0)) [
  | inl refused ↦ inr refused
  | inr admitted ↦ inl (ground arith)
]

-- The end either halts or comes to the call of the handler.
finish-cases :
    {k : Kernel}
    → Owned k
    → k.current ≢ null
    → ((pending : Ring) × (finish k k.current ≡ hand_over k.interrupts (ended k pending) k.current))
      ⊎ ((finish k k.current).0 ≢ switched)
finish-cases {k} o ne = elim (Bool-cases (is_managed (k.tasks k.current).lifecycle_mode)) [
  | inr plain ↦ inl (k.pending, finish_unmanaged o ne plain)
  | inl managed ↦ elim (publish-cases (ended k k.pending) k.current) [
    | inl ok ↦ inl (
      Ring.push k.pending k.current,
      finish_managed o ne managed (publish_ok (ended k k.pending) k.current ok),
    )
    | inr refused ↦ inr (finish_unpublished o ne managed refused)
  ]
]

-- The front of the run queue, when the handler is called.
peek_ended :
    (k : Kernel) (pending : Ring) (xs : List Ptr)
    → Owned k
    → contents k.runqueue ≡ xs
    → peek_next (ended k pending) ≡ Fifo.peek xs
unfolding peek_next
peek_ended k pending xs o e = peek_refines o.run_queue.valid ∙ ap Fifo.peek e

handed-Owned :
    {k : Kernel} (pending : Ring) (xs : List Ptr)
    → Owned k
    → k.current ≢ null
    → contents k.runqueue ≡ xs
    → (hand_over k.interrupts (ended k pending) k.current).0 ≡ switched
    → Owned (hand_over k.interrupts (ended k pending) k.current).1
unfolding Fifo.peek
handed-Owned {k} pending [] o ne list s =
    absurd
      (hand_over_empty k.interrupts (ended k pending) k.current (peek_ended k pending [] o list) s)
handed-Owned {k} pending (n ∷ rest) o ne list s = elim (Bool-cases (k.exit_handler == null)) [
  | inl nobody ↦
      absurd (hand_over_unhandled k.interrupts (ended k pending) k.current (ground arith) s)
  | inr handler ↦ elim (Bool-cases (failed (resolve_target k n).0)) [
    | inl bad ↦ absurd (
        hand_over_unresolved k.interrupts (ended k pending) k.current
          (rw
            (
              peek_ended k pending (n ∷ rest) o list,
              resolve_ended k pending (front-other o ne list),
            )
            bad)
          s)
    | inr good ↦
        rw (hand_over_switched o ne list (λ e. ground arith) good k.interrupts pending)
          (arrived-Finished o ne list (λ e. ground arith) good pending _).owned
  ]
]

-- If the end of the current task hands the processor over, the ownership invariant holds.
pub finish-Owned :
    {k : Kernel}
    → Owned k
    → k.current ≢ null
    → (finish k k.current).0 ≡ switched
    → Owned (finish k k.current).1
finish-Owned {k} o ne s = elim (finish-cases o ne) [
  | inr stuck ↦ absurd (stuck s)
  | inl (pending, e) ↦
      rw e (handed-Owned pending (contents k.runqueue) o ne refl (sym (ap (λ r. r.0) e) ∙ s))
]
