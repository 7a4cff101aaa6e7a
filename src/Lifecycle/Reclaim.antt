-- ===== src/Lifecycle/Reclaim.antt =====
-- What lifecycle_reap_one of kernel/lifecycle/lifecycle.c leaves when it refuses, and when it has
-- reclaimed a task.
use batos_os.Prelude.{
  ℕ, ◌≤◌, ◌<◌, ◌≡◌, ◌≢◌, ◌⊎◌, ◌||◌, ◌∷◌, false, true, not, Ptr, null, ret, err, failed, ◌==◌, arith,
  inl, inr, refl, sym, ap, ◌∙◌, Bool-cases, store_self,
}
use batos_os.Ring
use batos_os.Ring.Valid
use batos_os.Ring.Valid.{contents, front-pop-contents}
use batos_os.Kernel.{Kernel, Task, Registry, terminated, resume_none, set_task}
use batos_os.Kernel.Irq.{irq_save}
use batos_os.TaskRegistry
use batos_os.Process.Table.{LeavesTable}
use batos_os.Task.Create.{destroy, retired}
use batos_os.Lifecycle.Owners.{StackGone, StackGone-process, Left, leave-Left, destroy_works}
use batos_os.Lifecycle.Reap.{
  World, kernel_of, set_kernel, preflight, leave_process, release, reap_one,
}

release_fails : (w : World) (t : Ptr) (n : ℕ) → (release w t).0 ≡ err n → 10 ≤ n
unfolding release
release_fails w t n h = ground arith

-- lifecycle_reap_one changes nothing, the interrupt flag included, when it returns an error that
-- is not -10, -11 or -12.
pub reap_refuses : (w : World) (n : ℕ) → (reap_one w).0 ≡ err n → n < 10 → (reap_one w).1 ≡ w
unfolding reap_one
reap_refuses w n h lt =
    let k = kernel_of w in
    let w0 : World = set_kernel w (irq_save k).1 in
    let t : Ptr = Ring.front k.pending in
    elim (Bool-cases (not k.pending.initialized || (k.pending.count == 0))) [
      | inl idle ↦ ground arith
      | inr busy ↦ elim (Bool-cases (failed (preflight w0 t))) [
        | inl bad ↦ ground arith
        | inr good ↦
            let late : (release w0 t).0 ≡ err n → 10 ≤ n = release_fails w0 t n in
            absurd (ground arith)
      ]
    ]

registry_same :
    (k : Kernel) (t : Ptr) (task : Task)
    → task.id ≡ (k.tasks t).id
    → TaskRegistry.contains (set_task k t task).tasks k.registry t
      ≡ TaskRegistry.contains k.tasks k.registry t
unfolding TaskRegistry.contains
registry_same k t task e =
    let at : ((set_task k t task).tasks t).id ≡ (k.tasks t).id =
      ap (λ (x : Task). x.id) (store_self k.tasks t task) ∙ e in
    rw at refl

-- `n` is `w` after the task at the head `t` of the reclamation ring has been reclaimed.
pub record Reclaimed (w : World) (t : Ptr) (n : World) : Type 0 where
  pub pending : contents (kernel_of w).pending ≡ t ∷ contents (kernel_of n).pending
  pub filed : TaskRegistry.contains (kernel_of w).tasks (kernel_of w).registry t ≡ true
  pub gone : TaskRegistry.contains (kernel_of n).tasks (kernel_of n).registry t ≡ false
  pub stack : StackGone ((kernel_of w).tasks t) w.machine.vmm n.machine.vmm
  pub table :
      ((((kernel_of w).tasks t).process ≡ null) × (n.processes ≡ w.processes))
      ⊎ LeavesTable ((kernel_of w).tasks t).process t w.processes n.processes
  pub ended : ((kernel_of n).tasks t).state ≡ terminated
  pub no_stack : ((kernel_of n).tasks t).kernel_stack_base ≡ 0
  pub no_process : ((kernel_of n).tasks t).process ≡ null
  pub no_resume : ((kernel_of n).tasks t).resume_authority ≡ resume_none
  pub interrupts : (kernel_of n).interrupts ≡ (kernel_of w).interrupts

-- What release has done when it returns 0: the task has left its process, the registry has given it
-- up, task_destroy has returned 0, and the front of the ring is taken.
record Released (w : World) (t : Ptr) (n : World) : Type 0 where
  next : World
  left : Left w t next
  filed : Registry
  unfiled : TaskRegistry.contains (kernel_of next).tasks filed t ≡ false
  task : Task
  named : task.id ≡ ((kernel_of next).tasks t).id
  kernel :
      kernel_of n
      ≡ record (set_task (record (kernel_of next) { registry = filed }) t (retired task)) {
        pending = Ring.pop (kernel_of next).pending;
      }
  stack : StackGone ((kernel_of next).tasks t) next.machine.vmm n.machine.vmm
  processes : n.processes ≡ next.processes

abbrev popped : World → World
popped w = set_kernel w (record (kernel_of w) { pending = Ring.pop (kernel_of w).pending })

release_works :
    (w : World) (t : Ptr) → failed (release w t).0 ≡ false → Released w t (release w t).1
unfolding release
release_works w t h =
    let w1 : World = (leave_process w t).1 in
    let k1 : Kernel = kernel_of w1 in
    let unfile = TaskRegistry.unregister k1.tasks k1.registry t in
    let w2 : World = set_kernel w1 (record k1 { registry = unfile.1 }) in
    let w3 : World = record w2 { machine = (destroy w2.machine t).1 } in
    let g1 : failed (leave_process w t).0 ≡ false =
      elim (Bool-cases (failed (leave_process w t).0)) [
        | inl bad ↦ absurd (ground arith)
        | inr good ↦ good
      ] in
    let g2 : failed unfile.0 ≡ false = elim (Bool-cases (failed unfile.0)) [
      | inl bad ↦ absurd (ground (arith, g1))
      | inr good ↦ good
    ] in
    let g3 : failed (destroy w2.machine t).0 ≡ false =
      elim (Bool-cases (failed (destroy w2.machine t).0)) [
        | inl bad ↦ absurd (ground (arith, g1, g2))
        | inr good ↦ good
      ] in
    let d = destroy_works w2.machine t g3 in
    let done : release w t ≡ (ret 0, popped w3) = ground (arith, g1, g2, g3) in
    rw done (record {
      next = w1;
      left = leave-Left w t g1;
      filed = unfile.1;
      unfiled = d.unfiled;
      task = d.task;
      named = d.named;
      kernel = ap (λ (k : Kernel). record k { pending = Ring.pop k.pending }) d.kernel;
      stack = d.stack;
      processes = refl;
    })

module _ (w n : World) (t : Ptr) (r : Released w t n) where
  retired_at : (kernel_of n).tasks t ≡ retired r.task
  retired_at = rw r.kernel (store_self (kernel_of r.next).tasks t (retired r.task))

  abbrev before : Task
  before = (kernel_of w).tasks t

  stack_gone : StackGone before w.machine.vmm n.machine.vmm
  stack_gone =
      StackGone-process ((kernel_of r.next).tasks t) before r.next.machine.vmm w.machine.vmm
        n.machine.vmm r.left.task r.left.vmm r.stack

  left_table :
      ((before.process ≡ null) × (n.processes ≡ w.processes))
      ⊎ LeavesTable before.process t w.processes n.processes
  left_table = rw r.processes r.left.table

  still_gone : TaskRegistry.contains (kernel_of n).tasks (kernel_of n).registry t ≡ false
  still_gone = rw r.kernel (
      registry_same (record (kernel_of r.next) { registry = r.filed }) t (retired r.task) r.named
      ∙ r.unfiled)

-- The checks that let a task through have found it in the registry.
preflight-filed :
    (w : World) (t : Ptr)
    → failed (preflight w t) ≡ false
    → TaskRegistry.contains (kernel_of w).tasks (kernel_of w).registry t ≡ true
unfolding preflight
preflight-filed w t h = ground arith

-- When lifecycle_reap_one returns 0, on a well-formed reclamation ring, the oldest entry of the
-- ring, a task, is taken off it, and the other entries keep their order; the registry had the task
-- and has it no more; if the task had a stack, its pages were mapped to its frames, no byte of
-- them is translated any more, and the frames are freed in turn; if it had a process, the
-- process's table holds it once less, every other task as often, and no other process changed; the
-- task is TERMINATED, with no stack, process or continuation; the interrupt flag is as before.
pub reap_reclaims :
    (w : World)
    → Ring.Valid.IsValid (kernel_of w).pending
    → (reap_one w).0 ≡ ret 0
    → Reclaimed w (Ring.front (kernel_of w).pending) (reap_one w).1
unfolding reap_one
reap_reclaims w v h =
    let old = kernel_of w in
    let w0 : World = set_kernel w (irq_save old).1 in
    let t : Ptr = Ring.front old.pending in
    elim (Bool-cases (not old.pending.initialized || (old.pending.count == 0))) [
      | inl idle ↦ absurd (ground arith)
      | inr busy ↦ elim (Bool-cases (failed (preflight w0 t))) [
        | inl bad ↦ absurd (ground arith)
        | inr good ↦
            let n : World = (release w0 t).1 in
            let r = release_works w0 t (ground arith) in
            let done : (reap_one w).1
                ≡ set_kernel n (record (kernel_of n) { interrupts = old.interrupts }) =
              ground (arith, good) in
            let ne : old.pending.count ≢ 0 = ground arith in
            let at = retired_at w0 n t r in
            let ring : (kernel_of n).pending ≡ Ring.pop old.pending =
              rw r.kernel (ap Ring.pop r.left.pending) in
            rw done (record {
              pending = front-pop-contents v ne ∙ ap (λ q. t ∷ contents q) (sym ring);
              filed = preflight-filed w0 t good;
              gone = still_gone w0 n t r;
              stack = stack_gone w0 n t r;
              table = left_table w0 n t r;
              ended = ap (λ (x : Task). x.state) at;
              no_stack = ap (λ (x : Task). x.kernel_stack_base) at;
              no_process = ap (λ (x : Task). x.process) at;
              no_resume = ap (λ (x : Task). x.resume_authority) at;
              interrupts = refl;
            })
      ]
    ]
