-- ===== src/Lifecycle/Reap.antt =====
-- lifecycle_reap_one of kernel/lifecycle/lifecycle.c: the reclamation of the oldest task that has
-- been published, over the tasks, the processes and the page tables.
use batos_os.Prelude.{◌&&◌, not, Ptr, null, Mem, Status, ret, err, failed, ◌==◌, if◌then◌else◌}
use batos_os.Ring
use batos_os.Kernel.{Kernel, is_terminated, state_of}
use batos_os.Kernel.Irq.{irq_save, irq_restore}
use batos_os.RunQueue
use batos_os.TaskRegistry
use batos_os.ProcessRegistry.{Process, Processes}
use batos_os.Process.{Members, contains_task, detach_task}
use batos_os.Task.Create.{Machine, is_none, destroy}

-- The machine with the processes and their registry.
pub record World : Type 0 where
  pub machine : Machine
  pub processes : Mem Process
  pub process_registry : Processes

abbrev pub kernel_of : World → Kernel
kernel_of w = w.machine.kernel

abbrev pub set_kernel : World → Kernel → World
set_kernel w k = record w { machine = record w.machine { kernel = k } }

abbrev pub members : World → Members
members w = record {
  processes = w.processes;
  registry = w.process_registry;
  tasks = w.machine.kernel.tasks;
}

abbrev pub set_members : World → Members → World
set_members w n = record (set_kernel w (record (kernel_of w) { tasks = n.tasks })) {
  processes = n.processes;
}

-- The checks before the first write, on the task at the head.
unfoldable pub preflight : World → Ptr → Status
preflight w t =
    let k = kernel_of w in
    if t == null
    then err 2
    else if not (is_terminated (state_of k t))
    then err 3
    else if k.current == t
    then err 4
    else if not (is_none (k.tasks t).resume_authority)
    then err 5
    else if not ((k.tasks t).wait_queue == null)
    then err 6
    else if RunQueue.contains k.runqueue t
    then err 7
    else if not (TaskRegistry.contains k.tasks k.registry t)
    then err 8
    else if not ((k.tasks t).process == null)
        && not (contains_task (members w) (k.tasks t).process t)
    then err 9
    else ret 0

-- `if (process != NULL) process_detach_task(process, task)`
unfoldable pub leave_process : World → Ptr → Status × World
leave_process w t =
    if ((kernel_of w).tasks t).process == null
    then (ret 0, w)
    else let (s, n) = detach_task (members w) ((kernel_of w).tasks t).process t in
      (s, set_members w n)

-- The owners are released in the order of the code, then the ring's entry.
unfoldable pub release : World → Ptr → Status × World
release w t =
    let (s1, w1) = leave_process w t in
    if failed s1
    then (err 10, w1)
    else let (s2, registry) =
        TaskRegistry.unregister (kernel_of w1).tasks (kernel_of w1).registry t in
      let w2 = set_kernel w1 (record (kernel_of w1) { registry = registry }) in
      if failed s2
      then (err 11, w2)
      else let (s3, machine) = destroy w2.machine t in
        let w3 = record w2 { machine = machine } in
        if failed s3 then (err 12, w3) else (
          ret 0,
          set_kernel w3 (record (kernel_of w3) { pending = Ring.pop (kernel_of w3).pending }),
        )

unfoldable pub reap_one : World → Status × World
reap_one w =
    let k = kernel_of w in
    if not k.pending.initialized
    then (err 1, w)
    else if k.pending.count == 0
    then (ret 1, w)
    else let (flags, k0) = irq_save k in
      let w0 = set_kernel w k0 in
      let t = Ring.front k.pending in
      let s = preflight w0 t in
      if failed s
      then (s, set_kernel w0 (irq_restore flags (kernel_of w0)))
      else let (s1, w1) = release w0 t in (s1, set_kernel w1 (irq_restore flags (kernel_of w1)))
