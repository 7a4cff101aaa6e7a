-- ===== src/Dispatch/Arrive.antt =====
-- A resolved target is always entered: the dispatch switches.
use batos_os.Prelude.{◌≡◌, ◌≢◌, false, Ptr, null, arith, failed}
use batos_os.Kernel.{Kernel}
use batos_os.Dispatch.{
  Target, nowhere, to_context, to_frame, switched, frame_from_state, resolve_target, dispatch,
  switch_and_enable, switch_to_interrupt,
}

abbrev pub IsResolved : Target → Type 0
IsResolved nowhere = ⊥
IsResolved (to_context t) = t ≢ null
IsResolved (to_frame f) = f ≢ null

-- The state in which the target's continuation starts.
abbrev pub arrive : Kernel → Ptr → Target → Kernel
arrive k c nowhere = k
arrive k c (to_context t) = switch_and_enable k c t
arrive k c (to_frame f) = switch_to_interrupt k c f

pub resolve_target-IsResolved :
    (k : Kernel) (t : Ptr)
    → failed (resolve_target k t).0 ≡ false
    → IsResolved (resolve_target k t).1
unfolding resolve_target frame_from_state
resolve_target-IsResolved k t h = ground arith

pub dispatch_resolved :
    (k : Kernel) (c : Ptr) (target : Target)
    → c ≢ null
    → IsResolved target
    → dispatch k c target ≡ (switched, arrive k c target)
unfolding dispatch
dispatch_resolved k c nowhere ne h = absurd h
dispatch_resolved k c (to_context t) ne h = ground arith
dispatch_resolved k c (to_frame f) ne h = ground arith
