-- ===== src/Process.antt =====
-- kernel/process/process.c: the life of a process and the membership of its tasks, over the
-- registry of ProcessRegistry.
pub mod Membership
pub mod Table
use batos_os.Prelude.{
  ℕ, zero, suc, ◌+◌, ◌-◌, ◌&&◌, ◌||◌, Bool, true, false, not, Option, none, some, List, Ptr, null,
  Mem, store, Status, ret, err, failed, leb, ltb, ◌==◌, if◌then◌else◌, add_u64, get_or, set,
  replicate,
}
use batos_os.Kernel.{Task}
use batos_os.ProcessRegistry
use batos_os.ProcessRegistry.{Process, ProcessState, Processes, created, active, ended}
use batos_os.Vmm.{Vmm}
use batos_os.Vmm.Spaces.{get_address_space_state}

-- PROCESS_MAX_TASKS
abbrev pub max_members : ℕ
max_members = 256

-- The processes in memory, their registry, and the tasks in memory.
pub record Members : Type 0 where
  pub processes : Mem Process
  pub registry : Processes
  pub tasks : Mem Task

abbrev pub set_process : Members → Ptr → Process → Members
set_process m p process = record m { processes = store m.processes p process }

abbrev pub set_owner : Members → Ptr → Ptr → Members
set_owner m t p = record m { tasks = store m.tasks t (record (m.tasks t) { process = p }) }

-- The loop of process_find_task_index, over the `n` members from `i` on.
unfoldable pub find_from : List Ptr → Ptr → ℕ → ℕ → Option ℕ
find_from tasks t i zero = none
find_from tasks t i (suc n) =
    let rest = find_from tasks t (i + 1) n in if get_or tasks i null == t then some i else rest

-- process_find_task_index; its callers' `index` is not NULL.
unfoldable pub find_task_index : Members → Ptr → Ptr → Option ℕ
find_task_index m p t =
    if (p == null) || (t == null)
    then none
    else find_from (m.processes p).tasks t 0 (m.processes p).task_count

abbrev pub is_found : Option ℕ → Bool
is_found none = false
is_found (some i) = true

abbrev pub is_active : ProcessState → Bool
is_active active = true
is_active _ = false

unfoldable pub attach_task : Members → Ptr → Ptr → Status × Members
attach_task m p t =
    let process = m.processes p in
    if (p == null) || (t == null)
    then (err 1, m)
    else if not (ProcessRegistry.contains m.processes m.registry p) || not (is_active process.state)
    then (err 2, m)
    else if not ((m.tasks t).process == null)
    then (err 3, m)
    else if not ((m.tasks t).address_space == process.address_space)
    then (err 4, m)
    else if leb max_members process.task_count
    then (err 5, m)
    else if is_found (find_task_index m p t)
    then (err 6, m)
    else (
      ret 0,
      set_owner
          (set_process m p (record process {
            tasks = set process.tasks process.task_count t;
            task_count = add_u64 process.task_count 1;
          }))
          t p,
    )

-- The member at `index` leaves, and the last one takes its place.
unfoldable pub compact : Process → ℕ → Process
compact process index =
    let last = process.task_count - 1 in
    let tasks =
      if index == last
      then process.tasks
      else set process.tasks index (get_or process.tasks last null) in
    record process { tasks = set tasks last null; task_count = last }

unfoldable pub detach_task : Members → Ptr → Ptr → Status × Members
detach_task m p t =
    let process = m.processes p in
    if (p == null) || (t == null)
    then (err 1, m)
    else if not (ProcessRegistry.contains m.processes m.registry p)
    then (err 2, m)
    else elim (find_task_index m p t) [
      | none ↦ (err 3, m)
      | some index ↦
          if not ((m.tasks t).process == p)
          then (err 4, m)
          else if process.task_count == 0
          then (err 5, m)
          else (ret 0, set_owner (set_process m p (compact process index)) t null)
    ]

unfoldable pub contains_task : Members → Ptr → Ptr → Bool
contains_task m p t =
    if (p == null) || (t == null)
    then false
    else is_found (find_task_index m p t) && ((m.tasks t).process == p)

unfoldable pub task_count : Members → Ptr → ℕ
task_count m p = if p == null then 0 else (m.processes p).task_count

-- process_state_transition_valid
abbrev pub allowed : ProcessState → ProcessState → Bool
allowed created active = true
allowed active ended = true
allowed _ _ = false

-- A target that passes `allowed` is ACTIVE or TERMINATED.
unfoldable pub transition : Members → Ptr → ProcessState → Status × Members
transition m p target =
    if p == null
    then (err 1, m)
    else if not (allowed (m.processes p).state target)
    then (err 2, m)
    else if not (ProcessRegistry.contains m.processes m.registry p)
    then (err 3, m)
    else (ret 0, set_process m p (record (m.processes p) { state = target }))

-- The three writes that take a process's identity away.
abbrev pub nameless : Process → Process
nameless process = record process { id = 0; state = created; address_space = 0 }

abbrev pub new_process : ℕ → ℕ → Process
new_process pid space = record {
  id = pid;
  state = created;
  address_space = space;
  tasks = replicate max_members null;
  task_count = 0;
}

-- process_create from the writes of the new process on. The result of
-- process_registry_unregister is ignored.
unfoldable pub publish : Members → Ptr → ℕ → ℕ → Status × Members
unfolding transition
publish m p pid space =
    let m1 = set_process m p (new_process pid space) in
    let (s1, registry) = ProcessRegistry.register m1.processes m1.registry p in
    if failed s1
    then (err 7, set_process m1 p (nameless (m1.processes p)))
    else let (s2, m2) = transition (record m1 { registry = registry }) p active in
      if failed s2
      then (
        err 8,
        set_process
            (record m2 { registry = (ProcessRegistry.unregister m2.processes m2.registry p).1 }) p
            (nameless (m2.processes p)),
      )
      else (ret 0, m2)

unfoldable pub create : Vmm → Members → Ptr → ℕ → ℕ → Status × Members
unfolding publish
create vmm m p pid space =
    if p == null
    then (err 1, m)
    else if ProcessRegistry.contains m.processes m.registry p
    then (err 9, m)
    else if (pid == 0) || ltb 256 pid
    then (err 2, m)
    else if space == 0
    then (err 3, m)
    else elim (get_address_space_state vmm space) [
      | none ↦ (err 4, m)
      | some state ↦
          if not (state == 0) && not (state == 1)
          then (err 5, m)
          else if not (ProcessRegistry.find_by_address_space m.processes m.registry space == null)
          then (err 6, m)
          else publish m p pid space
    ]

unfoldable pub terminate : Members → Ptr → Status × Members
unfolding transition
terminate m p =
    if p == null
    then (err 1, m)
    else if not (ProcessRegistry.contains m.processes m.registry p)
    then (err 2, m)
    else transition m p ended

unfoldable pub destroy : Members → Ptr → Status × Members
destroy m p =
    let process = m.processes p in
    if p == null
    then (err 1, m)
    else if not (ProcessRegistry.contains m.processes m.registry p)
    then (err 2, m)
    else if not (ProcessRegistry.has_ended process.state)
    then (err 3, m)
    else if not (process.task_count == 0)
    then (err 4, m)
    else let (s, registry) = ProcessRegistry.unregister m.processes m.registry p in
      if failed s
      then (err 5, record m { registry = registry })
      else (ret 0, set_process (record m { registry = registry }) p (new_process 0 0))
