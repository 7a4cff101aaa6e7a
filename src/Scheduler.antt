-- ===== src/Scheduler.antt =====
-- kernel/sched/scheduler.c. A function that may hand the processor over returns an `Outcome`.
-- The state behind `switched` is the one in which the next continuation starts.
pub mod Rotate
pub mod TakeOver
pub mod Lifetime
pub mod Yield
pub mod Turns
pub mod Return
use batos_os.Prelude.{
  Bool, false, not, Ptr, null, Status, ret, err, failed, add_u64, ◌==◌, if◌then◌else◌,
}
use batos_os.Kernel.{
  ready, running, resume_context, is_ready, is_running, is_blocked, is_terminated, Kernel, state_of,
  set_task,
}
use batos_os.Kernel.Irq.{irq_save, irq_restore, irq_is_enabled}
use batos_os.RunQueue
use batos_os.Task.{transition, set_exit_handler}
use batos_os.Dispatch.{Outcome, returned, switched, halted, Target, resolve_target, dispatch}

-- The run queue's operations on the whole state.
unfoldable pub enqueue : Kernel → Ptr → Status × Kernel
enqueue k t = let (s, q) = RunQueue.enqueue k.tasks k.runqueue t in (s, record k { runqueue = q })

unfoldable pub remove : Kernel → Ptr → Status × Kernel
remove k t = let (s, q) = RunQueue.remove k.runqueue t in (s, record k { runqueue = q })

unfoldable pub peek_next : Kernel → Ptr
peek_next k = RunQueue.peek k.runqueue

unfoldable pub take_next : Kernel → Ptr × Kernel
take_next k = let (t, q) = RunQueue.dequeue k.runqueue in (t, record k { runqueue = q })

-- `exit_current` is the address of scheduler_exit_current, which the linker chooses.
unfoldable pub init : Ptr → Kernel → Status × Kernel
init exit_current k =
    let (s, q) = RunQueue.init in
    let k1 : Kernel = record k { current = null; dispatch_count = 0; runqueue = q } in
    if failed s then (err 1, k1) else set_exit_handler k1 exit_current

unfoldable pub start : Kernel → Status × Kernel
start k =
    if not (k.current == null)
    then (err 1, k)
    else if peek_next k == null
    then (err 2, k)
    else if not (is_ready (state_of k (peek_next k)))
    then (err 3, k)
    else let (next, k1) = take_next k in
      if next == null
      then (err 4, k1)
      else let (s, k2) = transition k1 next running in
        if failed s then (err 5, (enqueue k2 next).1) else (ret 0, record k2 { current = next })

unfoldable pub add : Kernel → Ptr → Status × Kernel
add k t =
    if t == null
    then (err 1, k)
    else if not (is_ready (state_of k t))
    then (err 2, k)
    else enqueue k t

-- The end of the functions that switch: `next` becomes current, and the dispatch, which must not
-- come back with an error, takes over.
unfoldable pub commit : Kernel → Ptr → Kernel
commit k next = record k { current = next; dispatch_count = add_u64 k.dispatch_count 1 }

unfoldable pub hand_off : Kernel → Ptr → Target → Outcome × Kernel
hand_off k current target =
    let (outcome, k1) = dispatch k current target in
    elim outcome [
      | returned s ↦
          if failed s then (halted, record k1 { interrupts = false }) else (returned (ret 0), k1)
      | switched ↦ (switched, k1)
      | halted ↦ (halted, k1)
    ]

-- The rollbacks of yield and preempt: `next` goes back into the queue, `current` out of it and
-- back to RUNNING.
unfoldable pub undo : Kernel → Ptr → Kernel
undo k current = (transition (remove k current).1 current running).1

unfoldable pub undo_both : Kernel → Ptr → Ptr → Kernel
unfolding undo
undo_both k next current = undo (enqueue k next).1 current

-- yield from the commitment on: `k` has interrupts masked, and `target` is resolved.
unfoldable pub yield_to : Bool → Target → Kernel → Ptr → Outcome × Kernel
unfolding undo undo_both commit
yield_to flags target k current =
    let (s1, k1) = transition k current ready in
    if failed s1
    then (returned (err 6), irq_restore flags k1)
    else let (s2, k2) = enqueue k1 current in
      if failed s2
      then (returned (err 6), irq_restore flags (transition k2 current running).1)
      else let (next, k3) = take_next k2 in
        if next == null
        then (returned (err 7), irq_restore flags (undo k3 current))
        else if not (is_ready (state_of k3 next))
        then (returned (err 8), irq_restore flags (undo_both k3 next current))
        else let (s4, k4) = transition k3 next running in
          if failed s4
          then (returned (err 9), irq_restore flags (undo_both k4 next current))
          else let k5 = commit k4 next in
            hand_off
              (set_task k5 current
                (record (k5.tasks current) { resume_authority = resume_context }))
              current target

unfoldable pub yield : Kernel → Outcome × Kernel
unfolding yield_to
yield k =
    if k.current == null
    then (returned (err 1), k)
    else if not (is_running (state_of k k.current))
    then (returned (err 2), k)
    else let (flags, k0) = irq_save k in
      if peek_next k0 == null
      then (returned (err 3), irq_restore flags k0)
      else if not (is_ready (state_of k0 (peek_next k0)))
      then (returned (err 4), irq_restore flags k0)
      else let (s, target) = resolve_target k0 (peek_next k0) in
        if failed s
        then (returned (err 5), irq_restore flags k0)
        else yield_to flags target k0 k0.current

-- The takeover that ends block_current and exit_current: the statuses are for an empty queue and
-- for a refused transition.
unfoldable pub take_over : Status → Status → Target → Kernel → Outcome × Kernel
unfolding commit
take_over empty refused target k =
    let (next, k1) = take_next k in
    if next == null
    then (returned empty, k1)
    else let (s, k2) = transition k1 next running in
      if failed s
      then (returned refused, (enqueue k2 next).1)
      else hand_off (commit k2 next) k.current target

unfoldable pub block_current : Kernel → Ptr → Outcome × Kernel
unfolding take_over
block_current k t =
    if t == null
    then (returned (err 1), k)
    else if not (t == k.current)
    then (returned (err 1), k)
    else if not (is_blocked (state_of k k.current))
    then (returned (err 2), k)
    else if irq_is_enabled k
    then (returned (err 3), k)
    else if peek_next k == null
    then (returned (err 4), k)
    else if not (is_ready (state_of k (peek_next k)))
    then (returned (err 5), k)
    else let (s, target) = resolve_target k (peek_next k) in
      if failed s then (returned (err 6), k) else take_over (err 7) (err 8) target k

unfoldable pub exit_current : Kernel → Ptr → Outcome × Kernel
unfolding take_over
exit_current k t =
    if t == null
    then (returned (err 1), k)
    else if not (t == k.current)
    then (returned (err 1), k)
    else if not (is_terminated (state_of k k.current))
    then (returned (err 2), k)
    else if irq_is_enabled k
    then (returned (err 3), k)
    else if peek_next k == null
    then (halted, record k { interrupts = false })
    else if not (is_ready (state_of k (peek_next k)))
    then (returned (err 4), k)
    else let (s, target) = resolve_target k (peek_next k) in
      if failed s then (returned (err 5), k) else take_over (err 6) (err 7) target k
