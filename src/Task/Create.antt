-- ===== src/Task/Create.antt =====
-- kernel/sched/task.c: task_create, task_validate_reclaim and task_destroy, with
-- x86_64_preempt_prepare_first_run of kernel/arch/x86_64/sched/preempt.c and lifecycle_reap_one of
-- kernel/lifecycle/lifecycle.c.
use batos_os.Prelude.{
  ℕ, ◌||◌, Bool, true, false, not, Ptr, null, Mem, store, Status, ret, err, failed, ltb, ◌==◌,
  if◌then◌else◌, add_u64, sub_u64, bit_and,
}
use batos_os.Ring.{max_tasks}
use batos_os.Kernel.{
  Kernel, Task, Context, bootstrap_trampoline, code_at, PreemptState, Frame, TaskState, new, ready,
  terminated, ResumeAuthority, resume_none, resume_context, resume_interrupt, unmanaged, set_task,
}
use batos_os.RunQueue
use batos_os.TaskRegistry
use batos_os.Vmm.{Vmm}
use batos_os.Task.{transition}
use batos_os.Task.Stack.{Region, no_frames, map_stack, owns_frames, unmap_stack}

-- The scheduling state and the page tables, with the words of the kernel stacks under their virtual
-- addresses.
pub record Machine : Type 0 where
  pub kernel : Kernel
  pub vmm : Vmm
  pub stack_words : Mem ℕ

abbrev pub is_interrupt : ResumeAuthority → Bool
is_interrupt resume_interrupt = true
is_interrupt _ = false

abbrev pub is_none : ResumeAuthority → Bool
is_none resume_none = true
is_none _ = false

abbrev pub no_context : Context
no_context = record {
  rbx = 0;
  rbp = 0;
  r12 = 0;
  r13 = 0;
  r14 = 0;
  r15 = 0;
  rsp = 0;
  rip = code_at 0;
}

abbrev pub no_frame : PreemptState
no_frame = record { frame_address = null; valid = 0 }

-- The writes of task_create before the stack is mapped; the members it does not write keep their
-- values, and it writes all of them.
abbrev pub fresh : ℕ → ℕ → Ptr → ℕ → Task
fresh id address_space entry argument = record {
  id = id;
  state = new;
  kernel_stack_base = 0;
  kernel_stack_top = 0;
  kernel_stack_pages = no_frames;
  address_space = address_space;
  process = null;
  entry = entry;
  argument = argument;
  wait_queue = null;
  resume_authority = resume_context;
  lifecycle_mode = unmanaged;
  preempt_state = no_frame;
  context = no_context;
}

-- `sizeof(struct irq_frame)`
abbrev pub frame_size : ℕ
frame_size = 152

-- X86_64_PREEMPT_INITIAL_RFLAGS
abbrev pub initial_rflags : ℕ
initial_rflags = 0x202

-- The synthetic frame. The function writes no stack pointer.
abbrev pub first_frame : Frame → Frame
first_frame before = record {
  registers = record no_context { rsp = before.registers.rsp; rip = bootstrap_trampoline };
  rflags = initial_rflags;
}

-- x86_64_preempt_prepare_first_run; its callers' `state` is the task's own.
unfoldable pub prepare_first_run : Kernel → Ptr → Status × Kernel
prepare_first_run k t =
    let task = k.tasks t in
    if t == null
    then (err 1, k)
    else if (task.kernel_stack_top == 0) || (task.kernel_stack_base == 0)
    then (err 1, k)
    else let address = sub_u64 (sub_u64 task.kernel_stack_top 24) frame_size in
      if ltb address task.kernel_stack_base
      then (err 1, k)
      else if not (bit_and address 15 == 0)
      then (err 1, k)
      else let k1 = record k { frames = store k.frames address (first_frame (k.frames address)) } in
        (
          ret 0,
          set_task k1 t
              (record task { preempt_state = record { frame_address = address; valid = 1 } }),
        )

-- The word at the stack pointer is the one above the synthetic frame, in which `iretq` finds the
-- stack pointer.
abbrev pub set_frame_rsp : Kernel → Ptr → ℕ → Kernel
set_frame_rsp k address rsp = record k {
  frames =
      store k.frames address (record (k.frames address) {
        registers = record (k.frames address).registers { rsp = rsp };
      });
}

-- The bootstrap return slot, the pointer to the task, and the context, once the stack is mapped.
unfoldable pub prepare_context : Machine → Ptr → Machine
prepare_context m t =
    let task = m.kernel.tasks t in
    let sp = sub_u64 task.kernel_stack_top 24 in
    let k = set_frame_rsp m.kernel (sub_u64 sp frame_size) 0 in
    record m {
      stack_words = store (store m.stack_words sp 0) (add_u64 sp 8) t;
      kernel =
          set_task k t (record task {
            context = record task.context { rsp = sp; rip = bootstrap_trampoline };
          });
    }

-- What task_create does when x86_64_preempt_prepare_first_run fails; it ignores the result of
-- task_unmap_stack.
unfoldable pub abandon : Machine → Ptr → Machine
abandon m t =
    let (s, task, vmm) = unmap_stack (m.kernel.tasks t) m.vmm in
    record m {
      kernel = set_task m.kernel t (record task {
        kernel_stack_base = 0;
        kernel_stack_top = 0;
        kernel_stack_pages = no_frames;
        preempt_state = no_frame;
      });
      vmm = vmm;
    }

-- task_create once the stack is mapped.
unfoldable pub complete : Machine → Ptr → Status × Machine
unfolding prepare_context prepare_first_run abandon
complete m t =
    let m1 = prepare_context m t in
    let (s1, k1) = prepare_first_run m1.kernel t in
    if failed s1
    then (err 1, abandon (record m1 { kernel = k1 }) t)
    else let (s2, k2) = transition k1 t ready in
      (if failed s2 then err 1 else ret 0, record m1 { kernel = k2 })

unfoldable pub create : Region → Machine → Ptr → ℕ → ℕ → Ptr → ℕ → Status × Machine
unfolding complete
create r m t id address_space entry argument =
    if (t == null) || (id == 0) || ltb max_tasks id || (address_space == 0) || (entry == null)
    then (err 1, m)
    else let (s, task, vmm) = map_stack r (fresh id address_space entry argument) m.vmm in
      let m1 = record m { kernel = set_task m.kernel t task; vmm = vmm } in
      if failed s then (err 1, m1) else complete m1 t

abbrev pub is_reclaimable : TaskState → Bool
is_reclaimable ready = true
is_reclaimable terminated = true
is_reclaimable _ = false

unfoldable pub validate_reclaim : Machine → Ptr → Status
validate_reclaim m t =
    let task = m.kernel.tasks t in
    if t == null
    then err 1
    else if m.kernel.current == t
    then err 1
    else if is_interrupt task.resume_authority
    then err 1
    else if not (is_reclaimable task.state)
    then err 1
    else if not (task.wait_queue == null)
    then err 1
    else if task.kernel_stack_base == 0
    then ret 0
    else if owns_frames task.address_space task.kernel_stack_base task.kernel_stack_pages m.vmm
    then ret 0
    else err 1

-- The writes of task_destroy at its end.
abbrev pub retired : Task → Task
retired task = record task {
  kernel_stack_base = 0;
  kernel_stack_top = 0;
  kernel_stack_pages = no_frames;
  state = terminated;
  entry = null;
  argument = 0;
  wait_queue = null;
  process = null;
  preempt_state = no_frame;
  resume_authority = resume_none;
}

unfoldable pub destroy : Machine → Ptr → Status × Machine
unfolding validate_reclaim
destroy m t =
    let task = m.kernel.tasks t in
    if failed (validate_reclaim m t)
    then (err 1, m)
    else if not (task.process == null)
    then (err 1, m)
    else if RunQueue.contains m.kernel.runqueue t
    then (err 1, m)
    else if TaskRegistry.contains m.kernel.tasks m.kernel.registry t
    then (err 1, m)
    else if task.kernel_stack_base == 0
    then (ret 0, record m { kernel = set_task m.kernel t (retired task) })
    else let (s, task1, vmm) = unmap_stack task m.vmm in
      if failed s
      then (err 1, record m { kernel = set_task m.kernel t task1; vmm = vmm })
      else (ret 0, record m { kernel = set_task m.kernel t (retired task1); vmm = vmm })
