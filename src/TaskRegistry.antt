-- ===== src/TaskRegistry.antt =====
-- kernel/sched/task_registry.c: the live tasks by identifier.
pub mod Slots
pub mod Free
use batos_os.Prelude.{
  ℕ, ◌-◌, ◌||◌, Bool, true, false, not, Ptr, null, Mem, Status, ret, err, leb, ltb, ◌==◌,
  if◌then◌else◌, add_u64, get_or, set, replicate,
}
use batos_os.Ring.{max_tasks}
use batos_os.Kernel.{Registry, Task, is_terminated}

unfoldable pub init : Status × Registry
init = (ret 0, record { slots = replicate max_tasks null; active_count = 0; initialized = true })

-- The guard that the operations on a task share.
abbrev pub refuses : Mem Task → Registry → Ptr → Bool
refuses tasks r t =
    not r.initialized || (t == null) || ((tasks t).id == 0) || ltb max_tasks (tasks t).id

unfoldable pub register : Mem Task → Registry → Ptr → Status × Registry
register tasks r t =
    if refuses tasks r t
    then (err 1, r)
    else if is_terminated (tasks t).state
    then (err 1, r)
    else let index = (tasks t).id - 1 in
      if not (get_or r.slots index null == null)
      then (err 1, r)
      else if leb max_tasks r.active_count
      then (err 1, r)
      else (
        ret 0,
        record r { slots = set r.slots index t; active_count = add_u64 r.active_count 1 },
      )

unfoldable pub contains : Mem Task → Registry → Ptr → Bool
contains tasks r t =
    if refuses tasks r t then false else get_or r.slots ((tasks t).id - 1) null == t

unfoldable pub unregister : Mem Task → Registry → Ptr → Status × Registry
unregister tasks r t =
    if refuses tasks r t
    then (err 1, r)
    else let index = (tasks t).id - 1 in
      if not (get_or r.slots index null == t)
      then (err 1, r)
      else if r.active_count == 0
      then (err 1, r)
      else (ret 0, record r { slots = set r.slots index null; active_count = r.active_count - 1 })

unfoldable pub find : Registry → ℕ → Ptr
find r id =
    if not r.initialized || (id == 0) || ltb max_tasks id
    then null
    else get_or r.slots (id - 1) null

unfoldable pub count : Registry → ℕ
count r = if not r.initialized then 0 else r.active_count
