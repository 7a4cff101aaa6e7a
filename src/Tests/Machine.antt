-- ===== src/Tests/Machine.antt =====
-- A machine with three tasks, 1, 2 and 3, and a wait queue at 9.
use batos_os.Prelude.{◌≡◌, refl, true, false, [], Mem, null, arith, ◌==◌, if◌then◌else◌}
use batos_os.Ring
use batos_os.Ring.{Ring}
use batos_os.Kernel.{
  Kernel, Task, Context, ready, resume_none, resume_context, managed, unmanaged, code_at,
}
use batos_os.WaitQueue
use batos_os.RunQueue
use batos_os.Task.{set_exit_handler}
use batos_os.Scheduler
use batos_os.TaskRegistry
use batos_os.System.{Reach, stays, goes, starts, adds, initialises}
use batos_os.System.Invariant.{AtBoot}

abbrev pub context : Context
context = record {
  rbx = 1;
  rbp = 2;
  r12 = 3;
  r13 = 4;
  r14 = 5;
  r15 = 6;
  rsp = 4096;
  rip = code_at 100;
}

-- Every address holds a task that is ready to run; its identifier is the address. Task 1 is managed.
abbrev pub good : Mem Task
good t = record {
  id = t;
  state = ready;
  kernel_stack_base = 0;
  kernel_stack_top = 0;
  kernel_stack_pages = [];
  address_space = 0;
  process = null;
  entry = 100;
  argument = 0;
  wait_queue = null;
  resume_authority = resume_context;
  lifecycle_mode = if t == 1 then managed else unmanaged;
  preempt_state = record { frame_address = 0; valid = 0 };
  context = context;
}

-- The same, but for task 2, which has no continuation.
abbrev pub bad : Mem Task
bad t = record (good t) { resume_authority = if t == 2 then resume_none else resume_context }

abbrev unused : Ring
unused = record { tasks = []; head = 0; tail = 0; count = 0; initialized = false }

abbrev pub machine : Mem Task → Kernel
machine tasks = record {
  tasks = tasks;
  wait_queues = λ q. unused;
  frames = λ f. record { registers = context; rflags = 512 };
  runqueue = unused;
  registry = (TaskRegistry.register tasks (TaskRegistry.init).1 1).1;
  pending = Ring.empty;
  current = null;
  dispatch_count = 0;
  exit_handler = null;
  cpu = context;
  interrupts = true;
}

abbrev pub booted : Mem Task → Kernel
booted tasks = (Scheduler.init 77 (machine tasks)).1

-- The wait queue is ready, and the three tasks are admitted.
abbrev pub waiting : Mem Task → Kernel
waiting tasks =
    (Scheduler.add (Scheduler.add (Scheduler.add (WaitQueue.init (booted tasks) 9).1 1).1 2).1 3).1

-- Task 1 runs.
abbrev pub live : Mem Task → Kernel
live tasks = (Scheduler.start (waiting tasks)).1

pub good-AtBoot : AtBoot (machine good)
good-AtBoot = record {
  nobody_runs = λ t r. ground arith;
  no_queue = λ q. refl;
  nobody_waits = λ t. refl;
}

pub bad-AtBoot : AtBoot (machine bad)
bad-AtBoot = record {
  nobody_runs = λ t r. ground arith;
  no_queue = λ q. refl;
  nobody_waits = λ t. refl;
}

pub Reach-waiting : (tasks : Mem Task) → Reach (booted tasks) (waiting tasks)
unfolding Scheduler.init RunQueue.init set_exit_handler
Reach-waiting tasks =
    goes (goes (goes (goes stays (initialises 9 unready)) (adds 1)) (adds 2)) (adds 3)
  where
    unready : ((booted tasks).wait_queues 9).initialized ≡ false
    unready = ground arith

pub Reach-live : (tasks : Mem Task) → Reach (booted tasks) (live tasks)
Reach-live tasks = goes (Reach-waiting tasks) starts
