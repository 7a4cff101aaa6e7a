-- ===== src/Execution.antt =====
-- kernel/execution/execution.c: the admission of a task, with a process of its own or to one that
-- there is, its rollback, and the destruction of a task that has not run yet.
pub mod Admission
pub mod Published
use batos_os.Prelude.{
  ℕ, ◌||◌, Bool, true, false, not, Ptr, null, Status, ret, err, failed, ◌==◌, if◌then◌else◌,
}
use batos_os.Kernel.{Kernel, Task, managed, is_ready, state_of, set_task}
use batos_os.RunQueue
use batos_os.TaskRegistry
use batos_os.Scheduler
use batos_os.ProcessRegistry
use batos_os.Process
use batos_os.Process.{Members, is_active, attach_task, detach_task}
use batos_os.Task.Stack.{Region}
use batos_os.Task.Create
use batos_os.Task.Create.{Machine, validate_reclaim}
use batos_os.Lifecycle.Reap.{World, kernel_of, set_kernel, members, set_members}

-- One call of a component, on its part of the world.
abbrev pub with_members : World → (Members → Status × Members) → Status × World
with_members w call =
    let (s, n) = call (members w) in (s, record (set_members w n) { process_registry = n.registry })

abbrev pub with_kernel : World → (Kernel → Status × Kernel) → Status × World
with_kernel w call = let (s, k) = call (kernel_of w) in (s, set_kernel w k)

abbrev pub with_machine : World → (Machine → Status × Machine) → Status × World
with_machine w call = let (s, m) = call w.machine in (s, record w { machine = m })

abbrev pub unregister : Ptr → Kernel → Status × Kernel
unregister t k =
    let (s, registry) = TaskRegistry.unregister k.tasks k.registry t in
    (s, record k { registry = registry })

abbrev pub register : Ptr → Kernel → Status × Kernel
register t k =
    let (s, registry) = TaskRegistry.register k.tasks k.registry t in
    (s, record k { registry = registry })

-- `if (flag) { if (call != 0) return -1; }` and the rest.
abbrev pub step_if :
    Bool → World → (World → Status × World) → (World → Status × World) → Status × World
step_if false w call rest = rest w
step_if true w call rest =
    let (s, w1) = call w in elim (failed s) [ true ↦ (err 1, w1) | false ↦ rest w1 ]

unfoldable pub rollback_task : World → Ptr → Ptr → (registered attached : Bool) → Status × World
rollback_task w p t registered attached =
    step_if attached w (λ v. with_members v (λ n. detach_task n p t))
      (λ w1.
        step_if registered w1 (λ v. with_kernel v (unregister t))
          (λ w2.
            step_if true w2 (λ v. with_machine v (λ m. Create.destroy m t)) (λ w3. (ret 0, w3))))

-- `process_terminate(process) != 0 || process_destroy(process) != 0`
unfoldable pub end_process : World → Ptr → Status × World
end_process w p =
    step_if true w (λ v. with_members v (λ n. Process.terminate n p))
      (λ w1. step_if true w1 (λ v. with_members v (λ n. Process.destroy n p)) (λ w2. (ret 0, w2)))

unfoldable pub rollback_kernel_task :
    World → Ptr → Ptr → (registered attached : Bool) → Status × World
rollback_kernel_task w p t registered attached =
    step_if true w (λ v. rollback_task v p t registered attached) (λ w1. end_process w1 p)

unfoldable pub preflight_destroy_task : World → Ptr → Ptr → Status
preflight_destroy_task w p t =
    let k = kernel_of w in
    if (p == null) || (t == null)
    then err 1
    else if not (is_ready (state_of k t))
        || not ((k.tasks t).process == p)
        || not (TaskRegistry.contains k.tasks k.registry t)
        || not (ProcessRegistry.contains w.processes w.process_registry p)
        || not (RunQueue.contains k.runqueue t)
    then err 2
    else if failed (validate_reclaim w.machine t)
    then err 3
    else ret 0

unfoldable pub preflight_destroy_kernel_task : World → Ptr → Ptr → Status
preflight_destroy_kernel_task w p t =
    if failed (preflight_destroy_task w p t)
    then err 1
    else if not (is_active (w.processes p).state) || not ((w.processes p).task_count == 1)
    then err 2
    else ret 0

-- A call that must return 0, or the given error.
abbrev pub require : ℕ → Status × World → (World → Status × World) → Status × World
require n (s, w) rest = elim (failed s) [ true ↦ (err n, w) | false ↦ rest w ]

unfoldable pub destroy_task : World → Ptr → Ptr → Status × World
destroy_task w p t =
    require 1 (preflight_destroy_task w p t, w)
      (λ w0. require 2 (with_kernel w0 (λ k. Scheduler.remove k t)) (λ w1.
        require 3 (with_members w1 (λ n. detach_task n p t)) (λ w2.
          require 4 (with_kernel w2 (unregister t))
            (λ w3. require 5 (with_machine w3 (λ m. Create.destroy m t)) (λ w4. (ret 0, w4))))))

unfoldable pub destroy_kernel_task : World → Ptr → Ptr → Status × World
destroy_kernel_task w p t =
    require 1 (preflight_destroy_kernel_task w p t, w)
      (λ w0. require 2 (destroy_task w0 p t) (λ w1.
        require 3 (with_members w1 (λ n. Process.terminate n p))
          (λ w2. require 4 (with_members w2 (λ n. Process.destroy n p)) (λ w3. (ret 0, w3)))))

-- A call that must return 0; if it does not, its rollback runs, and the errors are `broken` and
-- `n`, as the rollback fails or not.
abbrev pub attempt :
    (n broken : ℕ)
    → Status × World
    → (World → Status × World)
    → (World → Status × World)
    → Status × World
attempt n broken (s, w) rollback rest = elim (failed s) [
  | false ↦ rest w
  | true ↦ require broken (rollback w) (λ w1. (err n, w1))
]

abbrev pub set_managed : World → Ptr → World
set_managed w t =
    set_kernel w
      (set_task (kernel_of w) t (record ((kernel_of w).tasks t) { lifecycle_mode = managed }))

-- The publication of a task that has been made: registry, process, scheduler. `rollback` is given
-- whether the task is registered and attached.
unfoldable pub publish :
    (broken : ℕ) → World → Ptr → Ptr → (Bool → Bool → World → Status × World) → Status × World
publish broken w p t rollback =
    attempt 7 broken (with_kernel w (register t)) (rollback false false) (λ w1.
      attempt 8 broken (with_members w1 (λ n. attach_task n p t)) (rollback true false) (λ w2.
        attempt 9 broken (with_kernel w2 (λ k. Scheduler.add k t)) (rollback true true)
          (λ w3. (ret 0, set_managed w3 t))))

unfoldable pub create_kernel_task :
    Region
    → World
    → (p t : Ptr) → (pid tid space : ℕ) → (entry : Ptr) → (argument : ℕ) → Status × World
unfolding publish
create_kernel_task r w p t pid tid space entry argument =
    if (p == null) || (t == null) || (pid == 0) || (tid == 0) || (space == 0) || (entry == null)
    then (err 1, w)
    else if not (space == w.machine.vmm.kernel_pml4)
    then (err 2, w)
    else require 4 (with_members w (λ n. Process.create w.machine.vmm n p pid space)) (λ w1.
      attempt 6 5 (with_machine w1 (λ m. Create.create r m t tid space entry argument))
        (λ v. end_process v p)
        (λ w2.
          publish 5 w2 p t
            (λ registered attached v. rollback_kernel_task v p t registered attached)))

unfoldable pub create_task :
    Region → World → (p t : Ptr) → (tid space : ℕ) → (entry : Ptr) → (argument : ℕ) → Status × World
unfolding publish
create_task r w p t tid space entry argument =
    if (p == null) || (t == null) || (tid == 0) || (space == 0) || (entry == null)
    then (err 1, w)
    else if not (ProcessRegistry.contains w.processes w.process_registry p)
        || not (is_active (w.processes p).state)
    then (err 2, w)
    else if not (space == (w.processes p).address_space)
    then (err 3, w)
    else if not (space == w.machine.vmm.kernel_pml4)
    then (err 4, w)
    else require 5 (with_machine w (λ m. Create.create r m t tid space entry argument))
        (λ w1. publish 6 w1 p t (λ registered attached v. rollback_task v p t registered attached))
