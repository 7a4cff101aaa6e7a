-- ===== src/Task.antt =====
-- The state machine of kernel/sched/task.c.
pub mod Stack
pub mod Regions
pub mod Backs
pub mod Maps
pub mod Create
pub mod Complete
pub mod Created
pub mod Unmaps
use batos_os.Prelude.{
  Bool, true, false, not, Ptr, null, Status, ret, err, failed, ◌==◌, if◌then◌else◌,
}
use batos_os.Kernel.{
  TaskState, new, ready, running, blocked, sleeping, terminated, resume_none, is_running, Kernel,
  state_of, set_task, set_state,
}

-- The switch of `task_transition`: whether the state in the first place may become the second.
abbrev pub allowed : TaskState → TaskState → Bool
allowed new ready = true
allowed ready running = true
allowed running ready = true
allowed running blocked = true
allowed running sleeping = true
allowed running terminated = true
allowed blocked ready = true
allowed sleeping ready = true
allowed _ _ = false

unfoldable pub transition : Kernel → Ptr → TaskState → Status × Kernel
transition k t s =
    if t == null
    then (err 1, k)
    else if allowed (state_of k t) s
    then (ret 0, set_state k t s)
    else (err 1, k)

unfoldable pub set_exit_handler : Kernel → Ptr → Status × Kernel
set_exit_handler k handler =
    if handler == null then (err 1, k) else (ret 0, record k { exit_handler = handler })

unfoldable pub exit : Kernel → Ptr → Status × Kernel
unfolding transition
exit k t =
    if t == null
    then (err 1, k)
    else if not (is_running (state_of k t))
    then (err 1, k)
    else let (s, k1) = transition k t terminated in
      if failed s
      then (s, k1)
      else (ret 0, set_task k1 t (record (k1.tasks t) { resume_authority = resume_none }))
