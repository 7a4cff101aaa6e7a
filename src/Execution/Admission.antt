-- ===== src/Execution/Admission.antt =====
-- What the last three calls of an admission by kernel/execution/execution.c have done when they
-- return 0: the registration, the attachment to the process and the run queue.
use batos_os.Prelude.{
  ℕ, ◌<◌, ◌≡◌, ◌≢◌, ◌∙◌, ap, sym, arith, inl, inr, refl, Bool, true, false, Ptr, Status, failed,
  Bool-cases, store_self, ret, [], ◌∷◌, ◌++◌, length,
}
use batos_os.Ring
use batos_os.Ring.Valid.{contents, contents-push}
use batos_os.Kernel.{Kernel, Task, managed, is_ready, state_of}
use batos_os.RunQueue
use batos_os.Scheduler.{add, enqueue}
use batos_os.Process.{Members, attach_task, contains_task, find_task_index}
use batos_os.ProcessRegistry.{Process}
use batos_os.Process.Table.{Leaves, attach-Leaves}
use batos_os.Process.Membership.{attach-Admitted, attached_at, is_member}
use batos_os.Lifecycle.Reap.{World, kernel_of, members}
use batos_os.Execution.{register, with_kernel, with_members, set_managed, attempt, publish}

add_works :
    (k : Kernel) (t : Ptr)
    → failed (add k t).0 ≡ false
    → (is_ready (state_of k t) ≡ true)
      × (k.runqueue.count < 256)
      × (add k t ≡ (ret 0, record k { runqueue = Ring.push k.runqueue t }))
unfolding add enqueue RunQueue.enqueue
add_works k t h = (ground arith, ground arith, ground arith)

-- The identifier, the state and the address space are the same.
abbrev pub SameProcess : Process → Process → Type 0
SameProcess x y = (y.id ≡ x.id) × (y.state ≡ x.state) × (y.address_space ≡ x.address_space)

-- The task is READY and last in the run queue, the process has it as one member more, which
-- process_contains_task finds, and its end is managed.
pub record Published (k : Kernel) (before : Process) (p t : Ptr) (n : World) : Type 0 where
  pub queued : contents (kernel_of n).runqueue ≡ contents k.runqueue ++ t ∷ []
  pub is_ready_now : is_ready (state_of (kernel_of n) t) ≡ true
  pub joined : Leaves t (n.processes p) before
  pub same_process : SameProcess before (n.processes p)
  pub member : contains_task (members n) p t ≡ true
  pub managed_now : ((kernel_of n).tasks t).lifecycle_mode ≡ managed

-- Where the processes are the same and the task has its process, it is a member as before.
member_of :
    (m n : Members) (p t : Ptr)
    → n.processes ≡ m.processes
    → (n.tasks t).process ≡ p
    → contains_task m p t ≡ true
    → contains_task n p t ≡ true
unfolding contains_task find_task_index
member_of m n p t e own h = rw e (ground (arith, own))

attach_works :
    (m : Members) (p t : Ptr)
    → failed (attach_task m p t).0 ≡ false
    → length (m.processes p).tasks ≡ 256
    → let n = (attach_task m p t).1 in
      (contains_task n p t ≡ true)
      × Leaves t (n.processes p) (m.processes p)
      × SameProcess (m.processes p) (n.processes p)
      × ((n.tasks t).process ≡ p)
attach_works m p t h whole =
    let a = attach-Admitted m p t h in
    rw a.does (
      is_member m p t a whole,
      attach-Leaves m p t a whole,
      (
        ap (λ (x : Process). x.id) (attached_at m p t),
        ap (λ (x : Process). x.state) (attached_at m p t),
        ap (λ (x : Process). x.address_space) (attached_at m p t),
      ),
      ap (λ (x : Task). x.process) (store_self m.tasks t (record (m.tasks t) { process = p })),
    )

-- The last two calls and the mark, after a registration.
queued_managed :
    (w : World) (p t : Ptr)
    → Ring.Valid.IsValid (kernel_of w).runqueue
    → length (w.processes p).tasks ≡ 256
    → let w1 = (with_kernel w (register t)).1 in
      let (s2, w2) = with_members w1 (λ n. attach_task n p t) in
      let (s3, w3) = with_kernel w2 (λ k. add k t) in
      failed s2 ≡ false
      → failed s3 ≡ false
      → Published (kernel_of w) (w.processes p) p t (set_managed w3 t)
queued_managed w p t v whole g2 g3 =
    let w1 : World = (with_kernel w (register t)).1 in
    let (member, joined, same, owner) = attach_works (members w1) p t g2 whole in
    let w2 : World = (with_members w1 (λ n. attach_task n p t)).1 in
    let (now, room, does) = add_works (kernel_of w2) t g3 in
    let at : (kernel_of (set_managed w2 t)).tasks t
        ≡ record ((kernel_of w2).tasks t) { lifecycle_mode = managed } =
      store_self (kernel_of w2).tasks t
        (record ((kernel_of w2).tasks t) { lifecycle_mode = managed }) in
    let own : ((kernel_of (set_managed w2 t)).tasks t).process ≡ p =
      ap (λ (x : Task). x.process) at ∙ owner in
    rw does (record {
      queued = contents-push t v room;
      is_ready_now = ap (λ (x : Task). is_ready x.state) at ∙ now;
      joined = joined;
      same_process = same;
      member =
          member_of (attach_task (members w1) p t).1 (members (set_managed w2 t)) p t refl own
            member;
      managed_now = ap (λ (x : Task). x.lifecycle_mode) at;
    })

-- An attempt that succeeds is the rest after a call that has returned 0.
pub attempt_works :
    (n broken : ℕ) (r : Status × World) (rollback rest : World → Status × World)
    → n ≢ 0
    → broken ≢ 0
    → failed (attempt n broken r rollback rest).0 ≡ false
    → (failed r.0 ≡ false) × (attempt n broken r rollback rest ≡ rest r.1)
attempt_works n broken r rollback rest nn nb h = elim (Bool-cases (failed r.0)) [
  | inr good ↦ (good, ground (arith, good))
  | inl bad ↦ elim (Bool-cases (failed (rollback r.1).0)) [
    | inl b ↦ absurd (ground (arith, bad, b))
    | inr b ↦ absurd (ground (arith, bad, b))
  ]
]

pub publish-Published :
    (broken : ℕ) (w : World) (p t : Ptr) (rollback : Bool → Bool → World → Status × World)
    → Ring.Valid.IsValid (kernel_of w).runqueue
    → length (w.processes p).tasks ≡ 256
    → broken ≢ 0
    → failed (publish broken w p t rollback).0 ≡ false
    → Published (kernel_of w) (w.processes p) p t (publish broken w p t rollback).1
unfolding publish
publish-Published broken w p t rollback v whole ne h =
    let queue : World → Status × World = λ v. with_kernel v (λ k. add k t) in
    let finish : World → Status × World = λ v. (ret 0, set_managed v t) in
    let join : World → Status × World = λ v. with_members v (λ n. attach_task n p t) in
    let to_queue : World → Status × World =
      λ v. attempt 9 broken (queue v) (rollback true true) finish in
    let to_join : World → Status × World =
      λ v. attempt 8 broken (join v) (rollback true false) to_queue in
    let r1 = with_kernel w (register t) in
    let (g1, e1) = attempt_works 7 broken r1 (rollback false false) to_join (omega arith) ne h in
    let h2 : failed (to_join r1.1).0 ≡ false = ap (λ z. failed z.0) (sym e1) ∙ h in
    let (g2, e2) =
      attempt_works 8 broken (join r1.1) (rollback true false) to_queue (omega arith) ne h2 in
    let h3 : failed (to_queue (join r1.1).1).0 ≡ false = ap (λ z. failed z.0) (sym e2) ∙ h2 in
    let (g3, e3) =
      attempt_works 9 broken (queue (join r1.1).1) (rollback true true) finish (omega arith) ne
        h3 in
    let all : publish broken w p t rollback ≡ finish (queue (join r1.1).1).1 = e1 ∙ e2 ∙ e3 in
    rw all (queued_managed w p t v whole g2 g3)
