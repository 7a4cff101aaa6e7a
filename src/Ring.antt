-- ===== src/Ring.antt =====
-- The ring of task pointers that kernel/sched/runqueue.c keeps in static variables and
-- kernel/sched/wait_queue.c in `struct wait_queue`: the same five variables, and the same code
-- once the callers' own checks have passed. `TASK_MAX_TASKS` and `WAIT_QUEUE_MAX_TASKS` are 256.
pub mod Window
pub mod Valid
pub mod Search
pub mod Remove
use batos_os.Prelude.{
  ℕ, zero, suc, ◌+◌, ◌-◌, ◌%◌, Bool, true, false, Option, none, some, List, Ptr, null, add_u64, ltb,
  ◌==◌, if◌then◌else◌, get_or, set, replicate,
}

pub record Ring : Type 0 where
  pub tasks : List Ptr
  pub head : ℕ
  pub tail : ℕ
  pub count : ℕ
  pub initialized : Bool

abbrev pub max_tasks : ℕ
max_tasks = 256

-- `(head + index) % MAX_TASKS`, in 64-bit arithmetic.
abbrev pub position : ℕ → ℕ → ℕ
position head index = add_u64 head index % max_tasks

-- The initialisers: every slot NULL, head, tail and count 0.
unfoldable pub empty : Ring
empty = record {
  tasks = replicate max_tasks null;
  head = 0;
  tail = 0;
  count = 0;
  initialized = true;
}

-- `tasks[tail] = task; tail = (tail + 1) % MAX_TASKS; count++`
unfoldable pub push : Ring → Ptr → Ring
push r task = record r {
  tasks = set r.tasks r.tail task;
  tail = position r.tail 1;
  count = add_u64 r.count 1;
}

-- `tasks[head]`
unfoldable pub front : Ring → Ptr
front r = get_or r.tasks r.head null

-- `tasks[head] = NULL; head = (head + 1) % MAX_TASKS; count--`, which runs only at `count != 0`.
unfoldable pub pop : Ring → Ring
pop r = record r { tasks = set r.tasks r.head null; head = position r.head 1; count = r.count - 1 }

-- for (index = i; index < i + n; index++) if (tasks[position] == task) return index;
unfoldable pub find_from : List Ptr → ℕ → Ptr → (n i : ℕ) → Option ℕ
find_from tasks head task zero i = none
find_from tasks head task (suc n) i =
    let rest = find_from tasks head task n (i + 1) in
    if get_or tasks (position head i) null == task then some i else rest

-- The loop over `index < count`.
unfoldable pub find : Ring → Ptr → Option ℕ
unfolding find_from
find r task = find_from r.tasks r.head task r.count 0

-- The compaction loop from `shift` on, with `n` rounds left:
-- tasks[(head + shift) % MAX] = tasks[(head + shift + 1) % MAX];
unfoldable pub compact_from : List Ptr → ℕ → (n shift : ℕ) → List Ptr
compact_from tasks head zero shift = tasks
compact_from tasks head (suc n) shift =
    compact_from
      (set tasks (position head shift) (get_or tasks (position (add_u64 head shift) 1) null)) head n
      (shift + 1)

-- The removal of the entry at `index`: compaction for `index <= shift < count - 1`, then
-- `tail = (tail + MAX - 1) % MAX; tasks[tail] = NULL; count--`.
unfoldable pub remove_at : Ring → ℕ → Ring
unfolding compact_from
remove_at r index =
    let tail = add_u64 r.tail 255 % max_tasks in
    record r {
      tasks = set (compact_from r.tasks r.head (r.count - 1 - index) index) tail null;
      tail = tail;
      count = r.count - 1;
    }
