-- ===== src/Kernel.antt =====
-- The state that the scheduling code works on: `struct task` (kernel/sched/task.h), its saved
-- contexts (kernel/arch/x86_64/sched/context.h and preempt.h), and the static variables of
-- kernel/sched/{runqueue,task_registry,scheduler,task}.c and kernel/lifecycle/lifecycle.c, with the processor's interrupt flag.
pub mod Irq
use batos_os.Prelude.{ℕ, Bool, true, false, List, Ptr, Mem, store}
use batos_os.Ring.{Ring}

-- `enum task_state`, `enum task_resume_authority`, `enum task_lifecycle_mode`.
pub data TaskState : Type 0 where
  new ready running blocked sleeping terminated : TaskState

pub data ResumeAuthority : Type 0 where
  resume_none resume_context resume_interrupt : ResumeAuthority

pub data LifecycleMode : Type 0 where
  unmanaged managed : LifecycleMode

abbrev pub is_managed : LifecycleMode → Bool
is_managed managed = true
is_managed unmanaged = false

abbrev pub is_ready : TaskState → Bool
is_ready ready = true
is_ready _ = false

abbrev pub is_running : TaskState → Bool
is_running running = true
is_running _ = false

abbrev pub is_blocked : TaskState → Bool
is_blocked blocked = true
is_blocked _ = false

abbrev pub is_terminated : TaskState → Bool
is_terminated terminated = true
is_terminated _ = false

-- A code address: the labels of switch.asm and task_bootstrap.asm, or any other.
pub data CodeAddress : Type 0 where
  scheduler_resume interrupt_resume bootstrap_trampoline : CodeAddress
  code_at : ℕ → CodeAddress

-- `struct x86_64_context`.
pub record Context : Type 0 where
  pub rbx : ℕ
  pub rbp : ℕ
  pub r12 : ℕ
  pub r13 : ℕ
  pub r14 : ℕ
  pub r15 : ℕ
  pub rsp : ℕ
  pub rip : CodeAddress

-- `struct x86_64_preempt_state`.
pub record PreemptState : Type 0 where
  pub frame_address : Ptr
  pub valid : ℕ

-- Of an interrupt-return frame: the registers that a context holds too, with the stack pointer
-- that `iretq` pops, and the flags.
pub record Frame : Type 0 where
  pub registers : Context
  pub rflags : ℕ

pub record Task : Type 0 where
  pub id : ℕ
  pub state : TaskState
  pub kernel_stack_base : ℕ
  pub kernel_stack_top : ℕ
  pub kernel_stack_pages : List ℕ
  pub address_space : ℕ
  pub process : Ptr
  pub entry : Ptr
  pub argument : ℕ
  pub wait_queue : Ptr
  pub resume_authority : ResumeAuthority
  pub lifecycle_mode : LifecycleMode
  pub preempt_state : PreemptState
  pub context : Context

-- The static variables of task_registry.c.
pub record Registry : Type 0 where
  pub slots : List Ptr
  pub active_count : ℕ
  pub initialized : Bool

-- Everything at once. `pending` is the ring of lifecycle.c, `wait_queues` is the memory of the `struct wait_queue` objects, `cpu` holds
-- the processor's registers of a context, and `interrupts` is its flag IF.
pub record Kernel : Type 0 where
  pub tasks : Mem Task
  pub wait_queues : Mem Ring
  pub frames : Mem Frame
  pub runqueue : Ring
  pub registry : Registry
  pub pending : Ring
  pub current : Ptr
  pub dispatch_count : ℕ
  pub exit_handler : Ptr
  pub cpu : Context
  pub interrupts : Bool

abbrev pub state_of : Kernel → Ptr → TaskState
state_of k t = (k.tasks t).state

abbrev pub set_task : Kernel → Ptr → Task → Kernel
set_task k t task = record k { tasks = store k.tasks t task }

abbrev pub set_state : Kernel → Ptr → TaskState → Kernel
set_state k t s = set_task k t (record (k.tasks t) { state = s })
