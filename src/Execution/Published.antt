-- ===== src/Execution/Published.antt =====
-- What a publication by kernel/execution/execution.c has done when it succeeds.
use batos_os.Prelude.{
  ℕ, ◌≡◌, ◌≢◌, ◌∙◌, ap, sym, arith, inl, inr, Bool, false, Ptr, null, Status, failed, Bool-cases,
  Option-cases, store, store_self, [], ◌∷◌, ◌++◌, length, length-replicate,
}
use batos_os.Ring
use batos_os.Ring.Valid.{contents, contents-push}
use batos_os.Kernel.{Kernel, TaskState, ready, set_task}
use batos_os.Process
use batos_os.Process.{Members, attach_task, contains_task, find_task_index, new_process}
use batos_os.ProcessRegistry.{Process, active}
use batos_os.Vmm.{Vmm}
use batos_os.Vmm.Spaces.{get_address_space_state}
use batos_os.Task.{transition}
use batos_os.Task.Stack.{Region, map_stack}
use batos_os.Task.Create.{
  Machine, fresh, create, complete, prepare_context, prepare_first_run, abandon,
}
use batos_os.Lifecycle.Reap.{World, kernel_of, members}
use batos_os.Execution.{
  with_members, attempt, require, publish, with_machine, rollback_task, rollback_kernel_task,
  end_process, create_task, create_kernel_task,
}
use batos_os.Execution.Admission.{Published, attempt_works, publish-Published}

-- task_create does not touch the run queue.
prepare_first_run-runqueue :
    (k : Kernel) (t : Ptr) → (prepare_first_run k t).1.runqueue ≡ k.runqueue
unfolding prepare_first_run
prepare_first_run-runqueue k t = ground arith

transition-runqueue :
    (k : Kernel) (t : Ptr) (s : TaskState) → (transition k t s).1.runqueue ≡ k.runqueue
unfolding transition
transition-runqueue k t s = ground arith

complete-runqueue : (m : Machine) (t : Ptr) → (complete m t).1.kernel.runqueue ≡ m.kernel.runqueue
unfolding complete prepare_context abandon
complete-runqueue m t =
    let k1 : Kernel = (prepare_context m t).kernel in
    let k2 : Kernel = (prepare_first_run k1 t).1 in
    ground (arith, prepare_first_run-runqueue k1 t, transition-runqueue k2 t ready)

create-runqueue :
    (r : Region) (m : Machine) (t : Ptr) (id space : ℕ) (entry : Ptr) (argument : ℕ)
    → (create r m t id space entry argument).1.kernel.runqueue ≡ m.kernel.runqueue
unfolding create
create-runqueue r m t id space entry argument =
    let (s, task, vmm) = map_stack r (fresh id space entry argument) m.vmm in
    ground (arith, complete-runqueue (record m { kernel = set_task m.kernel t task; vmm = vmm }) t)

Published-from :
    (before : Process) (p t : Ptr) (k j : Kernel) (n : World)
    → j.runqueue ≡ k.runqueue
    → Published j before p t n
    → Published k before p t n
Published-from before p t k j n e u = record {
  queued = u.queued ∙ ap (λ q. contents q ++ t ∷ []) e;
  is_ready_now = u.is_ready_now;
  joined = u.joined;
  same_process = u.same_process;
  member = u.member;
  managed_now = u.managed_now;
}

require_works :
    (n : ℕ) (r : Status × World) (rest : World → Status × World)
    → n ≢ 0
    → failed (require n r rest).0 ≡ false
    → require n r rest ≡ rest r.1
require_works n r rest nn h = elim (Bool-cases (failed r.0)) [
  | inr good ↦ ground (arith, good)
  | inl bad ↦ absurd (ground (arith, bad))
]

require_good :
    (n : ℕ) (r : Status × World) (rest : World → Status × World)
    → n ≢ 0
    → failed (require n r rest).0 ≡ false
    → failed r.0 ≡ false
require_good n r rest nn h = elim (Bool-cases (failed r.0)) [
  | inr good ↦ good
  | inl bad ↦ absurd (ground (arith, bad))
]

-- The process that process_create has published.
publish_new :
    (m : Members) (p : Ptr) (pid space : ℕ)
    → failed (Process.publish m p pid space).0 ≡ false
    → (Process.publish m p pid space).1.processes p
      ≡ record (new_process pid space) { state = active }
unfolding Process.publish Process.transition
publish_new m p pid space h =
    let start : Process = new_process pid space in
    let m1 = store m.processes p start in
    let end : (Process.publish m p pid space).1.processes
        ≡ store m1 p (record (m1 p) { state = active }) =
      ground arith in
    ap (λ f. f p) end
    ∙ store_self m1 p (record (m1 p) { state = active })
    ∙ ap (λ (x : Process). record x { state = active }) (store_self m.processes p start)

create_new :
    (vmm : Vmm) (m : Members) (p : Ptr) (pid space : ℕ)
    → failed (Process.create vmm m p pid space).0 ≡ false
    → (Process.create vmm m p pid space).1.processes p
      ≡ record (new_process pid space) { state = active }
unfolding Process.create
create_new vmm m p pid space h = elim (Option-cases (get_address_space_state vmm space)) [
  | inl miss ↦ absurd (ground (arith, miss))
  | inr (state, found) ↦
      let whole : Process.create vmm m p pid space ≡ Process.publish m p pid space =
        ground (arith, found) in
      rw whole (publish_new m p pid space (ap (λ z. failed z.0) (sym whole) ∙ h))
]

-- With a well-formed run queue and a process whose array has 256 entries, when
-- execution_create_task returns 0, the task is READY and at the end of the run queue, behind the
-- tasks that were there; the process keeps its identifier, state and address space, its table has
-- the task once more and every other as often as before, process_contains_task finds the task, and
-- its end is managed.
pub create_task_publishes :
    (r : Region) (w : World) (p t : Ptr) (tid space : ℕ) (entry : Ptr) (argument : ℕ)
    → Ring.Valid.IsValid (kernel_of w).runqueue
    → length (w.processes p).tasks ≡ 256
    → failed (create_task r w p t tid space entry argument).0 ≡ false
    → Published (kernel_of w) (w.processes p) p t (create_task r w p t tid space entry argument).1
unfolding create_task
create_task_publishes r w p t tid space entry argument v whole_table h =
    let made = with_machine w (λ m. create r m t tid space entry argument) in
    let rest : World → Status × World =
      λ v. publish 6 v p t (λ reg att u. rollback_task u p t reg att) in
    let whole : create_task r w p t tid space entry argument ≡ require 5 made rest = ground arith in
    let h1 : failed (require 5 made rest).0 ≡ false = ap (λ z. failed z.0) (sym whole) ∙ h in
    let e = require_works 5 made rest (omega arith) h1 in
    let same = create-runqueue r w.machine t tid space entry argument in
    let h2 : failed (rest made.1).0 ≡ false = ap (λ z. failed z.0) (sym e) ∙ h1 in
    let u =
      publish-Published 6 made.1 p t (λ reg att u. rollback_task u p t reg att) (rw same v)
        whole_table (omega arith) h2 in
    rw (whole ∙ e)
      (Published-from (w.processes p) p t (kernel_of w) (kernel_of made.1) (rest made.1).1 same u)

-- With a well-formed run queue, when execution_create_kernel_task returns 0, the process is
-- ACTIVE, with the identifier and the address space that were given, and its table holds the task
-- once and no other; process_contains_task finds the task, which is READY and at the end of the
-- run queue, behind the tasks that were there, and its end is managed.
pub create_kernel_task_publishes :
    (r : Region) (w : World) (p t : Ptr) (pid tid space : ℕ) (entry : Ptr) (argument : ℕ)
    → Ring.Valid.IsValid (kernel_of w).runqueue
    → failed (create_kernel_task r w p t pid tid space entry argument).0 ≡ false
    → Published
        (kernel_of w)
        (record (new_process pid space) { state = active })
        p
        t
        (create_kernel_task r w p t pid tid space entry argument).1
unfolding create_kernel_task
create_kernel_task_publishes r w p t pid tid space entry argument v h =
    let born = with_members w (λ n. Process.create w.machine.vmm n p pid space) in
    let make : World → Status × World =
      λ v. with_machine v (λ m. create r m t tid space entry argument) in
    let roll : Bool → Bool → World → Status × World =
      λ reg att u. rollback_kernel_task u p t reg att in
    let last : World → Status × World = λ v. publish 5 v p t roll in
    let rest : World → Status × World = λ v. attempt 6 5 (make v) (λ u. end_process u p) last in
    let whole : create_kernel_task r w p t pid tid space entry argument ≡ require 4 born rest =
      ground arith in
    let h1 : failed (require 4 born rest).0 ≡ false = ap (λ z. failed z.0) (sym whole) ∙ h in
    let e = require_works 4 born rest (omega arith) h1 in
    let h2 : failed (rest born.1).0 ≡ false = ap (λ z. failed z.0) (sym e) ∙ h1 in
    let (g, e2) =
      attempt_works 6 5 (make born.1) (λ u. end_process u p) last (omega arith) (omega arith) h2 in
    let h3 : failed (last (make born.1).1).0 ≡ false = ap (λ z. failed z.0) (sym e2) ∙ h2 in
    let same = create-runqueue r born.1.machine t tid space entry argument in
    let start : Process = record (new_process pid space) { state = active } in
    let at : born.1.processes p ≡ start =
      create_new w.machine.vmm (members w) p pid space
        (require_good 4 born rest (omega arith) h1) in
    let len : length (born.1.processes p).tasks ≡ 256 = rw at (length-replicate 256 null) in
    let u = publish-Published 5 (make born.1).1 p t roll (rw same v) len (omega arith) h3 in
    rw (whole ∙ e ∙ e2) (
      Published-from start p t (kernel_of w) (kernel_of (make born.1).1) (last (make born.1).1).1
        same (rw (sym at) u))
