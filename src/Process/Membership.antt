-- ===== src/Process/Membership.antt =====
-- The membership of tasks in a process: process_attach_task and process_detach_task of
-- kernel/process/process.c.
use batos_os.Prelude.{
  ℕ, zero, suc, ◌+◌, ◌-◌, ◌<◌, ◌≡◌, ◌≢◌, arith, inl, inr, refl, sym, ap, ◌∙◌, Bool-cases,
  Option-cases, ◌==◌, ◌||◌, Ptr, null, List, length, none, some, failed, ret, true, false, get_or,
  set, set-set, get_or-set_self, get_or-set_ne, store, store_self, store-restore,
}
use batos_os.Kernel.{Task}
use batos_os.ProcessRegistry
use batos_os.ProcessRegistry.{Process}
use batos_os.Process.{
  Members, max_members, find_from, find_task_index, attach_task, detach_task, compact, set_process,
  set_owner, contains_task,
}

-- The search for a task that has just been appended.
find_from-set :
    (xs : List Ptr) (c : ℕ) (t : Ptr) (i n : ℕ)
    → c < length xs
    → i + n ≡ c
    → find_from xs t i n ≡ none
    → find_from (set xs c t) t i (suc n) ≡ some c
unfolding find_from
find_from-set xs c t i zero room e miss =
    let at : i ≡ c = omega arith in rw at (ground (arith, get_or-set_self xs c t null room))
find_from-set xs c t i (suc n) room e miss =
    let ne : c ≢ i = omega arith in
    let rest : find_from (set xs c t) t (i + 1) (suc n) ≡ some c =
      find_from-set xs c t (i + 1) n room (omega arith) (ground arith) in
    ground (arith, rest, get_or-set_ne xs {i = c} {j = i} t null ne)

compact-append :
    (process : Process) (t : Ptr)
    → get_or process.tasks process.task_count null ≡ null
    → compact
        (record process {
          tasks = set process.tasks process.task_count t;
          task_count = process.task_count + 1;
        })
        process.task_count
      ≡ process
unfolding compact
compact-append process t free =
    let last : process.task_count + 1 - 1 ≡ process.task_count = omega arith in
    rw last (ground (arith, set-set process.tasks process.task_count t free))

abbrev pub appended : Process → Ptr → Process
appended process t = record process {
  tasks = set process.tasks process.task_count t;
  task_count = process.task_count + 1;
}

abbrev pub attached : Members → Ptr → Ptr → Members
attached m p t = set_owner (set_process m p (appended (m.processes p) t)) t p

pub attached_at :
    (m : Members) (p t : Ptr) → (attached m p t).processes p ≡ appended (m.processes p) t
attached_at m p t = store_self m.processes p (appended (m.processes p) t)

-- What process_attach_task has checked when it returns 0.
pub record Admitted (m : Members) (p t : Ptr) : Type 0 where
  pub process_ne : p ≢ null
  pub task_ne : t ≢ null
  pub registered : ProcessRegistry.contains m.processes m.registry p ≡ true
  pub free_task : (m.tasks t).process ≡ null
  pub room : (m.processes p).task_count < 256
  pub absent : find_from (m.processes p).tasks t 0 (m.processes p).task_count ≡ none
  pub does : attach_task m p t ≡ (ret 0, attached m p t)

pub attach-Admitted :
    (m : Members) (p t : Ptr) → failed (attach_task m p t).0 ≡ false → Admitted m p t
unfolding attach_task find_task_index
attach-Admitted m p t h =
    let process : Process = m.processes p in
    elim (Bool-cases ((p == null) || (t == null))) [
      | inl bad ↦ absurd (ground arith)
      | inr fine ↦ elim (Option-cases (find_from process.tasks t 0 process.task_count)) [
        | inr (i, there) ↦ absurd (ground arith)
        | inl miss ↦ record {
          process_ne = ground arith;
          task_ne = ground arith;
          registered = ground arith;
          free_task = ground arith;
          room = ground arith;
          absent = miss;
          does = ground arith;
        }
      ]
    ]

contains_same :
    (m : Members) (p : Ptr) (process : Process)
    → process.id ≡ (m.processes p).id
    → ProcessRegistry.contains (store m.processes p process) m.registry p
      ≡ ProcessRegistry.contains m.processes m.registry p
unfolding ProcessRegistry.contains
contains_same m p process e =
    let at : (store m.processes p process p).id ≡ (m.processes p).id =
      ap (λ (q : Process). q.id) (store_self m.processes p process) ∙ e in
    rw at refl

module _ (m : Members) (p t : Ptr) (a : Admitted m p t)
    (whole : length (m.processes p).tasks ≡ max_members) where
  abbrev grown : Process
  grown = appended (m.processes p) t

  grown_at : (attached m p t).processes p ≡ grown
  grown_at = attached_at m p t

  found : find_task_index (attached m p t) p t ≡ some (m.processes p).task_count
  unfolding find_task_index
  found = rw grown_at (
      ground (
        arith,
        a.process_ne,
        a.task_ne,
        find_from-set (m.processes p).tasks (m.processes p).task_count t 0
            (m.processes p).task_count (omega (arith, whole, a.room)) (omega arith) a.absent,
      ))

  owner : ((attached m p t).tasks t).process ≡ p
  owner = ap (λ (q : Task). q.process) (store_self m.tasks t (record (m.tasks t) { process = p }))

  pub is_member : contains_task (attached m p t) p t ≡ true
  unfolding contains_task
  is_member = rw found (ground (arith, owner, a.process_ne, a.task_ne))

  released : detach_task (attached m p t) p t ≡ (
    ret 0,
    set_owner (set_process (attached m p t) p (compact grown (m.processes p).task_count)) t null,
  )
  unfolding detach_task store ProcessRegistry.contains
  released = rw grown_at (
      rw found (
        ground (arith, owner, a.process_ne, a.task_ne, a.registered, contains_same m p grown refl)))

  restored :
      get_or (m.processes p).tasks (m.processes p).task_count null ≡ null
      → set_owner (set_process (attached m p t) p (compact grown (m.processes p).task_count)) t null
        ≡ m
  restored free =
      let back = compact-append (m.processes p) t free in
      let processes =
        store-restore m.processes p grown (compact grown (m.processes p).task_count) back in
      let owned : Task = record (m.tasks t) { process = p } in
      let freed : record ((attached m p t).tasks t) { process = null } ≡ m.tasks t =
        ap (λ (q : Task). record q { process = null }) (store_self m.tasks t owned)
        ∙ ap (λ (x : Ptr). record (m.tasks t) { process = x }) (sym a.free_task) in
      let tasks =
        store-restore m.tasks t owned (record ((attached m p t).tasks t) { process = null })
          freed in
      ap (λ x. record m { processes = x; tasks = (set_owner (attached m p t) t null).tasks })
        processes
      ∙ ap (λ x. record m { tasks = x }) tasks

-- When process_attach_task returns 0, for a process whose array has 256 entries and NULL after its
-- members, process_contains_task finds the task, and process_detach_task returns 0 and restores
-- the process, its registry and the task as they were.
pub detach-attach :
    (m : Members) (p t : Ptr)
    → failed (attach_task m p t).0 ≡ false
    → length (m.processes p).tasks ≡ max_members
    → get_or (m.processes p).tasks (m.processes p).task_count null ≡ null
    → (contains_task (attach_task m p t).1 p t ≡ true)
      × (detach_task (attach_task m p t).1 p t ≡ (ret 0, m))
detach-attach m p t h whole free =
    let a = attach-Admitted m p t h in
    rw a.does (
      is_member m p t a whole,
      released m p t a whole ∙ ap (λ (z : Members). (ret 0, z)) (restored m p t a whole free),
    )
