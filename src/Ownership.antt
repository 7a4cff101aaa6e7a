-- ===== src/Ownership.antt =====
-- Who owns a task: the run queue its READY tasks, a wait queue its BLOCKED ones, and the processor
-- the one that is RUNNING.
use batos_os.Prelude.{◌≡◌, ◌∙◌, ◌≢◌, true, Ptr, null, Mem, arith, mem, NoDup, store}
use batos_os.Ring.{Ring}
use batos_os.Ring.Valid.{IsValid, contents}
use batos_os.Kernel.{Task, TaskState, ready, running, blocked, Kernel}

-- `task->state` in the memory of tasks.
abbrev pub IsIn : TaskState → Mem Task → Ptr → Type 0
IsIn s tasks t = (tasks t).state ≡ s

-- The run queue holds distinct READY tasks.
pub record RunQueueOwns (tasks : Mem Task) (q : Ring) : Type 0 where
  pub valid : IsValid q
  pub distinct : NoDup (contents q)
  pub all_ready : (t : Ptr) → mem t (contents q) ≡ true → IsIn ready tasks t × (t ≢ null)

-- An initialised wait queue holds distinct BLOCKED tasks, which point back at it, and a task that
-- points at a wait queue is in it.
pub record WaitQueuesOwn (tasks : Mem Task) (queues : Mem Ring) : Type 0 where
  pub valid : (q : Ptr) → (queues q).initialized ≡ true → IsValid (queues q)
  pub distinct : (q : Ptr) → (queues q).initialized ≡ true → NoDup (contents (queues q))
  pub all_blocked :
      (q t : Ptr)
      → (queues q).initialized ≡ true
      → mem t (contents (queues q)) ≡ true
      → IsIn blocked tasks t × ((tasks t).wait_queue ≡ q) × (t ≢ null)
  pub owner :
      (t : Ptr)
      → (tasks t).wait_queue ≢ null
      → ((queues (tasks t).wait_queue).initialized ≡ true)
        × (mem t (contents (queues (tasks t).wait_queue)) ≡ true)

-- The processor runs the current task, and no other task is RUNNING.
pub record CpuOwns (tasks : Mem Task) (current : Ptr) : Type 0 where
  pub current_runs : current ≢ null → IsIn running tasks current
  pub sole_runner : (t : Ptr) → IsIn running tasks t → (t ≡ current) × (t ≢ null)

pub record Owned (k : Kernel) : Type 0 where
  pub run_queue : RunQueueOwns k.tasks k.runqueue
  pub wait_queues : WaitQueuesOwn k.tasks k.wait_queues
  pub cpu_owner : CpuOwns k.tasks k.current

-- A write to a task keeps the queues' claims if it keeps the task's owner, and its state where a
-- queue holds it.
module _ {tasks : Mem Task} (t : Ptr) (task : Task) where
  pub store-RunQueueOwns :
      {q : Ring}
      → RunQueueOwns tasks q
      → (mem t (contents q) ≡ true → task.state ≡ ready)
      → RunQueueOwns (store tasks t task) q
  unfolding store
  store-RunQueueOwns o keep = record {
    valid = o.valid;
    distinct = o.distinct;
    all_ready = λ u m. ground (arith, keep, o.all_ready u m);
  }

  pub store-WaitQueuesOwn :
      {queues : Mem Ring}
      → WaitQueuesOwn tasks queues
      → task.wait_queue ≡ (tasks t).wait_queue
      → ((q : Ptr)
          → (queues q).initialized ≡ true
          → mem t (contents (queues q)) ≡ true
          → task.state ≡ blocked)
      → WaitQueuesOwn (store tasks t task) queues
  unfolding store
  store-WaitQueuesOwn o same keep = record {
    valid = o.valid;
    distinct = o.distinct;
    all_blocked = λ q u i m. ground (arith, keep q i, o.all_blocked q u i m, same);
    owner = λ u ne. rw (same_owner u) (o.owner u (λ z. ne (same_owner u ∙ z)));
  }
    where
      same_owner : (u : Ptr) → (store tasks t task u).wait_queue ≡ (tasks u).wait_queue
      same_owner u = ground (arith)

  pub store-CpuOwns :
      {current : Ptr}
      → CpuOwns tasks current
      → task.state ≡ (tasks t).state
      → CpuOwns (store tasks t task) current
  unfolding store
  store-CpuOwns o same = record {
    current_runs = λ ne. ground (arith, o.current_runs ne);
    sole_runner = λ u r. ground (arith, o.sole_runner u);
  }

-- A write that keeps a task's state and owner changes no claim.
pub store-Owned :
    {k : Kernel} (t : Ptr) (task : Task)
    → Owned k
    → task.state ≡ (k.tasks t).state
    → task.wait_queue ≡ (k.tasks t).wait_queue
    → Owned (record k { tasks = store k.tasks t task })
store-Owned {k} t task o state owner = record {
  run_queue = store-RunQueueOwns t task o.run_queue λ m. state ∙ (o.run_queue.all_ready t m).0;
  wait_queues =
      store-WaitQueuesOwn t task o.wait_queues owner
        λ q i m. state ∙ (o.wait_queues.all_blocked q t i m).0;
  cpu_owner = store-CpuOwns t task o.cpu_owner state;
}

-- Nor does what the claims do not speak of.
pub Owned-of_same :
    {k k' : Kernel}
    → Owned k
    → k'.tasks ≡ k.tasks
    → k'.runqueue ≡ k.runqueue
    → k'.wait_queues ≡ k.wait_queues
    → k'.current ≡ k.current
    → Owned k'
Owned-of_same o e f g h = record {
  run_queue = rw (e, f) o.run_queue;
  wait_queues = rw (e, g) o.wait_queues;
  cpu_owner = rw (e, h) o.cpu_owner;
}
