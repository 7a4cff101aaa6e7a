-- ===== src/Lifecycle/Owners.antt =====
-- What task_destroy and process_detach_task release for lifecycle_reap_one of
-- kernel/lifecycle/lifecycle.c.
use batos_os.Prelude.{
  ◌≡◌, ◌⊎◌, inl, inr, refl, sym, ap, false, true, Ptr, null, failed, ◌==◌, arith, Bool-cases,
}
use batos_os.Kernel.{Task, set_task}
use batos_os.TaskRegistry
use batos_os.Process.{detach_task}
use batos_os.Process.Table.{LeavesTable, detach-Detached}
use batos_os.Vmm.{Vmm}
use batos_os.Task.Stack.{owns_frames, unmap_stack}
use batos_os.Task.Unmaps.{Dismantled, unmap_stack-Dismantled}
use batos_os.Task.Create.{Machine, destroy, retired}
use batos_os.Lifecycle.Reap.{World, kernel_of, members, set_members, leave_process}

-- The stack of `task` is taken apart from `s` to `t`: there is none, or its pages were mapped to the
-- task's frames, are no more, and the frames are freed.
unfoldable pub StackGone : Task → Vmm → Vmm → Type 0
StackGone task s t =
    ((task.kernel_stack_base ≡ 0) × (t ≡ s))
    ⊎ ((owns_frames task.address_space task.kernel_stack_base task.kernel_stack_pages s ≡ true)
        × Dismantled s task.address_space task.kernel_stack_base task.kernel_stack_pages t)

StackGone-same : (x y : Task) (s s1 t : Vmm) → x ≡ y → s ≡ s1 → StackGone x s t → StackGone y s1 t
StackGone-same x y s s1 t e d h = rw (sym d) (rw (sym e) h)

-- The process of a task does not matter to its stack.
pub StackGone-process :
    (x y : Task) (s s1 t : Vmm)
    → x ≡ record y { process = null }
    → s ≡ s1
    → StackGone x s t
    → StackGone y s1 t
unfolding StackGone
StackGone-process x y s s1 t e d h = StackGone-same x (record y { process = null }) s s1 t e d h

-- task_destroy, when it returns 0, has retired the task, which the registry did not contain, and
-- taken its stack apart.
pub record Destroyed (m : Machine) (t : Ptr) (n : Machine) : Type 0 where
  pub unfiled : TaskRegistry.contains m.kernel.tasks m.kernel.registry t ≡ false
  pub task : Task
  pub named : task.id ≡ (m.kernel.tasks t).id
  pub kernel : n.kernel ≡ set_task m.kernel t (retired task)
  pub stack : StackGone (m.kernel.tasks t) m.vmm n.vmm

unmap-id : (task : Task) (s : Vmm) → (unmap_stack task s).1.id ≡ task.id
unfolding unmap_stack
unmap-id task s = ground arith

pub destroy_works :
    (m : Machine) (t : Ptr) → failed (destroy m t).0 ≡ false → Destroyed m t (destroy m t).1
unfolding destroy StackGone
destroy_works m t h =
    let task : Task = m.kernel.tasks t in
    elim (Bool-cases (task.kernel_stack_base == 0)) [
      | inl bare ↦ record {
        unfiled = ground arith;
        task = task;
        named = refl;
        kernel = ground arith;
        stack = inl (ground arith, ground arith);
      }
      | inr own ↦
          let good : failed (unmap_stack task m.vmm).0 ≡ false = ground arith in
          let end : (destroy m t).1.vmm ≡ (unmap_stack task m.vmm).2 = ground arith in
          record {
            unfiled = ground arith;
            task = (unmap_stack task m.vmm).1;
            named = unmap-id task m.vmm;
            kernel = ground arith;
            stack = inr (rw end (unmap_stack-Dismantled task m.vmm good));
          }
    ]

-- The task at `t` leaves its process, if it has one, and nothing else changes.
pub record Left (w : World) (t : Ptr) (n : World) : Type 0 where
  pub table :
      ((((kernel_of w).tasks t).process ≡ null) × (n.processes ≡ w.processes))
      ⊎ LeavesTable ((kernel_of w).tasks t).process t w.processes n.processes
  pub task : (kernel_of n).tasks t ≡ record ((kernel_of w).tasks t) { process = null }
  pub vmm : n.machine.vmm ≡ w.machine.vmm
  pub pending : (kernel_of n).pending ≡ (kernel_of w).pending

pub leave-Left :
    (w : World) (t : Ptr) → failed (leave_process w t).0 ≡ false → Left w t (leave_process w t).1
unfolding leave_process
leave-Left w t h = elim (Bool-cases (((kernel_of w).tasks t).process == null)) [
  | inl alone ↦
      let none_there : ((kernel_of w).tasks t).process ≡ null = ground arith in
      let same : (leave_process w t).1 ≡ w = ground arith in
      rw same (record {
        table = inl (none_there, refl);
        task = ap (λ (x : Ptr). record ((kernel_of w).tasks t) { process = x }) none_there;
        vmm = refl;
        pending = refl;
      })
  | inr one ↦
      let p : Ptr = ((kernel_of w).tasks t).process in
      let done = detach_task (members w) p t in
      let good : failed done.0 ≡ false = ground arith in
      let d = detach-Detached (members w) p t good in
      let end : (leave_process w t).1 ≡ set_members w done.1 = ground arith in
      rw end (record { table = inr d.table; task = d.owner; vmm = refl; pending = refl })
]
