-- ===== src/Scheduler/Return.antt =====
-- A yield and the yield back: what the first task finds when it goes on.
use batos_os.Prelude.{
  ◌≡◌, ◌≢◌, refl, ret, ◌⊎◌, inl, inr, sym, ap, ◌∙◌, ◌<◌, true, false, Ptr, null, [], ◌∷◌, arith,
  mem_cons_self, failed, store, length,
}
use batos_os.Ring.Valid.{contents, length-contents}
use batos_os.Kernel.{Kernel, Context, resume_context, scheduler_resume, interrupt_resume}
use batos_os.Ownership.{Owned}
use batos_os.Dispatch.{
  Target, switched, nowhere, to_context, to_frame, resolve_target, switch_and_enable,
  switch_to_interrupt, save_context,
}
use batos_os.Dispatch.Arrive.{IsResolved, resolve_target-IsResolved}
use batos_os.Scheduler.Rotate.{c-ne-n}
use batos_os.Scheduler.{yield, commit}
use batos_os.Scheduler.Turns.{yields, resumable}
use batos_os.Scheduler.Yield.{
  Yielded, yield_rotates, masked, resolve_masked, yielded, yield-switched, Ready-of_Owned,
}

-- That `r` holds the registers `cpu`, but for the address, which is one of the two resume labels of
-- switch.asm.
abbrev pub Resumes : Context → Context → Type 0
Resumes cpu r =
    (r ≡ record cpu { rip = scheduler_resume }) ⊎ (r ≡ record cpu { rip = interrupt_resume })

-- A switch saves the registers in the context of the task that gives way.
saved :
    (k : Kernel) (n : Ptr) (target : Target)
    → IsResolved target
    → Resumes k.cpu ((yielded k n target).tasks k.current).context
unfolding commit store switch_and_enable switch_to_interrupt save_context
saved k n nowhere r = absurd r
saved k n (to_context t) r = inl (ground arith)
saved k n (to_frame f) r = inr (ground arith)

-- A switch to a saved context loads it, and enables interrupts.
loaded :
    (k : Kernel) (c : Ptr)
    → k.current ≢ c
    → ((yielded k c (to_context c)).cpu ≡ (k.tasks c).context)
      × ((yielded k c (to_context c)).interrupts ≡ true)
unfolding commit store switch_and_enable save_context
loaded k c ne = ground arith

resolved_context :
    (k : Kernel) (c : Ptr)
    → c ≢ null
    → (k.tasks c).resume_authority ≡ resume_context
    → resolve_target (masked k) c ≡ (ret 0, to_context c)
unfolding resolve_target
resolved_context k c ne e = ground arith

yield_to_saved :
    {k : Kernel} {c : Ptr}
    → Owned k
    → k.current ≢ null
    → k.current ≢ c
    → c ≢ null
    → contents k.runqueue ≡ c ∷ []
    → (k.tasks c).resume_authority ≡ resume_context
    → yield k ≡ (switched, yielded k c (to_context c))
yield_to_saved {k} {c} o ne other cne list e =
    let r = resolved_context k c cne e in
    yield-switched o (Ready-of_Owned o ne list) (rw r refl)
      (ground (arith, length-contents k.runqueue, ap length list))
    ∙ ap (λ (t : Target). (switched, yielded k c t)) (ap (λ p. p.1) r)

module _ {k : Kernel} {n : Ptr} (o : Owned k) (ne : k.current ≢ null)
    (list : contents k.runqueue ≡ n ∷ []) (good : failed (resolve_target k n).0 ≡ false) where
  target : Target
  target = (resolve_target (masked k) n).1

  room : k.runqueue.count < 256
  room = ground (arith, length-contents k.runqueue, ap length list)

  resolves : failed (resolve_target (masked k) n).0 ≡ false
  resolves = rw (resolve_masked k n) good

  first : (yield k).1 ≡ yielded k n target
  unfolding target
  first = ap (λ r. r.1) (yield-switched o (Ready-of_Owned o ne list) resolves room)

  gone : Yielded k n [] (yield k).1
  gone = (yield_rotates o ne list room good).1

  gone_other : (yield k).1.current ≢ k.current
  gone_other e = c-ne-n (Ready-of_Owned o ne list) (sym e ∙ gone.0.current)

  gone_busy : (yield k).1.current ≢ null
  gone_busy e = ground (arith, o.run_queue.all_ready n, gone.0.current, list, mem_cons_self n [])

  second : yield (yield k).1 ≡ (switched, yielded (yield k).1 k.current (to_context k.current))
  second = yield_to_saved gone.0.owned gone_busy gone_other ne gone.0.queue gone.1

  back : (yield (yield k).1).1.current ≡ k.current
  back =
      (yield_rotates gone.0.owned gone_busy gone.0.queue
        (ground (arith, length-contents (yield k).1.runqueue, ap length gone.0.queue))
        (resumable (yield k).1 k.current ne gone.1)).1.0.current

  context_saved : Resumes k.cpu ((yield k).1.tasks k.current).context
  unfolding target
  context_saved = rw first (saved k n target (resolve_target-IsResolved (masked k) n resolves))

  returned_to : Resumes k.cpu (yield (yield k).1).1.cpu × ((yield (yield k).1).1.interrupts ≡ true)
  returned_to =
      let l = loaded (yield k).1 k.current gone_other in rw second (rw l.0 context_saved, l.1)

-- With one resumable task in the run queue, a yield and the yield back restore the first task
-- under the invariant: current, with every saved register as it was, at a resume label, and
-- interrupts enabled.
pub yields_return :
    {k : Kernel} {n : Ptr}
    → Owned k
    → k.current ≢ null
    → contents k.runqueue ≡ n ∷ []
    → failed (resolve_target k n).0 ≡ false
    → let k2 = yields 2 k in
      (k2.current ≡ k.current) × Resumes k.cpu k2.cpu × (k2.interrupts ≡ true)
unfolding yields
yields_return o ne list good = let r = returned_to o ne list good in (back o ne list good, r.0, r.1)
