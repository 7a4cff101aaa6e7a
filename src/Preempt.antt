-- ===== src/Preempt.antt =====
-- scheduler_preempt_current of kernel/sched/scheduler.c, and the timer's entry in
-- kernel/arch/x86_64/sched/preempt.c that calls it.
pub mod Timer
use batos_os.Prelude.{
  ◌||◌, Bool, false, not, Ptr, null, Status, ret, err, failed, ◌==◌, if◌then◌else◌,
}
use batos_os.Kernel.{
  ready, running, resume_interrupt, is_ready, is_running, Kernel, state_of, set_task,
}
use batos_os.Task.{transition}
use batos_os.Dispatch.{Target, nowhere, to_frame, resolve_target}
use batos_os.Scheduler.{enqueue, peek_next, take_next, commit, undo, undo_both}

-- From the commitment on. The pointer is what goes to `*next`.
unfoldable pub preempt_to : Kernel → (current expected : Ptr) → Status × Ptr × Kernel
preempt_to k current expected =
    let (s1, k1) = transition k current ready in
    if failed s1
    then (err 6, null, k1)
    else let (s2, k2) = enqueue k1 current in
      if failed s2
      then (err 6, null, (transition k2 current running).1)
      else let (selected, k3) = take_next k2 in
        if selected == null
        then (err 7, null, undo k3 current)
        else if not (selected == expected)
        then (err 8, null, undo_both k3 selected current)
        else let (s4, k4) = transition k3 selected running in
          if failed s4
          then (err 8, null, undo_both k4 selected current)
          else (ret 0, selected, commit k4 selected)

-- scheduler_preempt_current; the caller's `next` is not NULL.
unfoldable pub preempt_current : Kernel → Ptr → Status × Ptr × Kernel
unfolding preempt_to
preempt_current k expected =
    if k.current == null
    then (err 2, null, k)
    else if not (is_running (state_of k k.current))
    then (err 3, null, k)
    else if peek_next k == null
    then (ret 1, k.current, k)
    else if (expected == null) || not (peek_next k == expected)
    then (err 4, null, k)
    else if not (is_ready (state_of k (peek_next k)))
    then (err 5, null, k)
    else preempt_to k k.current expected

-- `result < 0`
abbrev pub negative : Status → Bool
negative (ret n) = false
negative (err n) = not (n == 0)

-- The interrupted task's frame becomes its authoritative continuation.
unfoldable pub save_frame : Kernel → Ptr → Kernel
save_frame k frame = set_task k k.current (record (k.tasks k.current) {
  preempt_state = record { frame_address = frame; valid = 1 };
  resume_authority = resume_interrupt;
})

-- x86_64_preempt_handle_timer; `enabled` is the static `preempt_enabled`, and the caller's
-- `target` is not NULL.
unfoldable pub handle_timer : (enabled : Bool) → Kernel → Ptr → Status × Target × Kernel
unfolding save_frame
handle_timer enabled k frame =
    if frame == null
    then (err 1, nowhere, k)
    else if not enabled
    then (ret 0, to_frame frame, k)
    else if k.current == null
    then (ret 0, to_frame frame, k)
    else let k1 = save_frame k frame in
      if peek_next k1 == null
      then (ret 0, to_frame frame, k1)
      else let (s, candidate_target) = resolve_target k1 (peek_next k1) in
        if failed s
        then (ret 0, to_frame frame, k1)
        else let (result, next, k2) = preempt_current k1 (peek_next k1) in
          if negative result || (next == null)
          then (ret 0, to_frame frame, k2)
          else if next == k.current
          then (ret 0, to_frame frame, k2)
          else (ret 0, candidate_target, k2)
