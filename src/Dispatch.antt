-- ===== src/Dispatch.antt =====
-- kernel/arch/x86_64/sched/dispatch.c, with what the primitives of switch.asm that it calls do to
-- the saved contexts, the registers and the interrupt flag.
pub mod Arrive
pub mod Keeps
use batos_os.Prelude.{◌/◌, ◌%◌, Bool, true, false, Ptr, null, Status, ret, err, ◌==◌, if◌then◌else◌}
use batos_os.Kernel.{
  resume_none, resume_context, resume_interrupt, scheduler_resume, interrupt_resume, CodeAddress,
  PreemptState, Kernel, set_task,
}

-- `struct x86_64_resume_target`: the context of a task, or an interrupt frame.
pub data Target : Type 0 where
  nowhere : Target
  to_context to_frame : Ptr → Target

-- How a call ends: it returns a status, it hands the processor to another continuation, or it
-- stops in a loop of `cli; hlt`.
pub data Outcome : Type 0 where
  returned : Status → Outcome
  switched halted : Outcome

unfoldable pub frame_from_state : PreemptState → Ptr
frame_from_state s =
    if s.valid == 0 then null else if s.frame_address == 0 then null else s.frame_address

abbrev pub preempt_state_is_valid : PreemptState → Bool
preempt_state_is_valid s = if frame_from_state s == null then false else true

unfoldable pub resolve_target : Kernel → Ptr → Status × Target
unfolding frame_from_state
resolve_target k t = if t == null then (err 1, nowhere) else elim (k.tasks t).resume_authority [
  | resume_none ↦ (err 2, nowhere)
  | resume_context ↦ (ret 0, to_context t)
  | resume_interrupt ↦
      if preempt_state_is_valid (k.tasks t).preempt_state
      then (ret 0, to_frame (k.tasks t).preempt_state.frame_address)
      else (err 2, nowhere)
]

-- The registers are saved in the current task's context, to resume at a label of switch.asm.
unfoldable pub save_context : Kernel → Ptr → CodeAddress → Kernel
save_context k t label =
    set_task k t (record (k.tasks t) { context = record k.cpu { rip = label } })

-- x86_64_context_switch_and_enable_interrupts
unfoldable pub switch_and_enable : Kernel → Ptr → Ptr → Kernel
unfolding save_context
switch_and_enable k current next =
    let k1 = save_context k current scheduler_resume in
    record k1 { cpu = (k1.tasks next).context; interrupts = true }

-- x86_64_context_switch_to_interrupt: `iretq` loads IF, bit 9 of the frame's flags.
unfoldable pub switch_to_interrupt : Kernel → Ptr → Ptr → Kernel
unfolding save_context
switch_to_interrupt k current frame =
    let k1 = save_context k current interrupt_resume in
    record k1 {
      cpu = (k1.frames frame).registers;
      interrupts = (k1.frames frame).rflags / 512 % 2 == 1;
    }

unfoldable pub dispatch : Kernel → Ptr → Target → Outcome × Kernel
unfolding switch_and_enable switch_to_interrupt
dispatch k current target = if current == null then (returned (err 1), k) else elim target [
  | nowhere ↦ (returned (err 4), k)
  | to_context t ↦
      if t == null then (returned (err 2), k) else (switched, switch_and_enable k current t)
  | to_frame f ↦
      if f == null then (returned (err 3), k) else (switched, switch_to_interrupt k current f)
]
