-- ===== src/Process/Table.antt =====
-- The members of a process as a multiset: what process_attach_task and process_detach_task of
-- kernel/process/process.c do to the table.
use batos_os.Prelude.{
  ℕ, zero, suc, ◌+◌, ◌-◌, ◌≤◌, ◌<◌, ◌≡◌, ◌≢◌, arith, inl, inr, refl, sym, ap, ◌∙◌, Bool-cases,
  Option-cases, ◌==◌, ◌||◌, Ptr, null, List, [], ◌∷◌, length, some, failed, false, get_or, set,
  get_or-set_self, get_or-set_ne, store, store_self, store_ne, if◌then◌else◌, Mem,
}
use batos_os.ProcessRegistry.{Process}
use batos_os.Process.{Members, find_from, find_task_index, detach_task, compact}
use batos_os.Process.Membership.{Admitted, attached}

abbrev pub one_if : Ptr → Ptr → ℕ
one_if x u = if x == u then 1 else 0

-- How often `u` stands among the first `n` entries.
unfoldable pub times : List Ptr → Ptr → ℕ → ℕ
times xs u zero = 0
times xs u (suc n) = times xs u n + one_if (get_or xs n null) u

-- `before` has the member `t` once more than `after`, and every other as often.
pub record Leaves (t : Ptr) (before after : Process) : Type 0 where
  pub count : suc after.task_count ≡ before.task_count
  pub members :
      (u : Ptr)
      → times after.tasks u after.task_count + one_if t u ≡ times before.tasks u before.task_count

times-set_out :
    (xs : List Ptr) (i : ℕ) (v u : Ptr) (n : ℕ) → n ≤ i → times (set xs i v) u n ≡ times xs u n
unfolding times
times-set_out xs i v u zero le = refl
times-set_out xs i v u (suc n) le =
    let ne : i ≢ n = omega arith in
    let at = get_or-set_ne xs {i = i} {j = n} v null ne in
    let rest = times-set_out xs i v u n (omega arith) in rw at (rw rest refl)

times-set_in :
    (xs : List Ptr) (i : ℕ) (v u : Ptr) (n : ℕ)
    → i < n
    → i < length xs
    → times (set xs i v) u n + one_if (get_or xs i null) u ≡ times xs u n + one_if v u
unfolding times
times-set_in xs i v u zero lt len = absurd (omega arith)
times-set_in xs i v u (suc n) lt len = elim (Bool-cases (i == n)) [
  | inl last ↦
      let e : n ≡ i = ground arith in
      rw e (
        rw (get_or-set_self xs i v null len)
          (rw (times-set_out xs i v u i (omega arith)) (omega arith)))
  | inr before ↦
      let ne : i ≢ n = ground arith in
      let rest = times-set_in xs i v u n (ground arith) len in
      rw (get_or-set_ne xs {i = i} {j = n} v null ne) (omega (arith, rest))
]

-- A search that finds has found the task at an entry before the end.
find_from-some :
    (xs : List Ptr) (t : Ptr) (i n j : ℕ)
    → find_from xs t i n ≡ some j
    → (j < i + n) × (get_or xs j null ≡ t)
unfolding find_from
find_from-some xs t i zero j h = absurd (ground arith)
find_from-some xs t i (suc n) j h = elim (Bool-cases (get_or xs i null == t)) [
  | inl here ↦ let e : i ≡ j = ground arith in rw (sym e) (omega arith, ground arith)
  | inr on ↦ let (lt, at) = find_from-some xs t (i + 1) n j (ground arith) in (omega arith, at)
]

get_or_lt : (xs : List Ptr) (i : ℕ) → get_or xs i null ≢ null → i < length xs
get_or_lt [] i ne = absurd (ne refl)
get_or_lt (x ∷ xs) zero ne = omega arith
get_or_lt (x ∷ xs) (suc i) ne = let lt = get_or_lt xs i ne in omega arith

compact_last :
    (process : Process) (index : ℕ)
    → index ≡ process.task_count - 1
    → compact process index ≡ record process {
      tasks = set process.tasks (process.task_count - 1) null;
      task_count = process.task_count - 1;
    }
unfolding compact
compact_last process index e = ground arith

compact_before :
    (process : Process) (index : ℕ)
    → index ≢ process.task_count - 1
    → compact process index ≡ record process {
      tasks =
          set
            (set process.tasks index (get_or process.tasks (process.task_count - 1) null))
            (process.task_count - 1)
            null;
      task_count = process.task_count - 1;
    }
unfolding compact
compact_before process index ne = ground arith

pub compact-Leaves :
    (process : Process) (t : Ptr) (index : ℕ)
    → t ≢ null
    → index < process.task_count
    → get_or process.tasks index null ≡ t
    → Leaves t process (compact process index)
unfolding times
compact-Leaves process t index ne lt at =
    let xs : List Ptr = process.tasks in
    let last : ℕ = process.task_count - 1 in
    let end : Ptr = get_or xs last null in
    let whole : process.task_count ≡ suc last = omega arith in
    elim (Bool-cases (index == last)) [
      | inl here ↦
          let e : index ≡ last = ground arith in
          rw (compact_last process index e) (record {
            count = sym whole;
            members = λ u.
                let mine : end ≡ t = ap (λ (i : ℕ). get_or xs i null) (sym e) ∙ at in
                ap (λ (n : ℕ). n + one_if t u) (times-set_out xs last null u last (omega arith))
                ∙ ap (λ (x : Ptr). times xs u last + one_if x u) (sym mine)
                ∙ ap (times xs u) (sym whole);
          })
      | inr off ↦
          let off_last : index ≢ last = ground arith in
          let len : index < length xs = get_or_lt xs index (λ e. ne (sym at ∙ e)) in
          rw (compact_before process index off_last) (record {
            count = sym whole;
            members = λ u.
                ap (λ (n : ℕ). n + one_if t u)
                  (times-set_out (set xs index end) last null u last (omega arith))
                ∙ ap (λ (x : Ptr). times (set xs index end) u last + one_if x u) (sym at)
                ∙ times-set_in xs index end u last (omega (arith, off_last)) len
                ∙ ap (times xs u) (sym whole);
          })
    ]

-- The task leaves the table of the process at `p`, and no other process changes.
pub record LeavesTable (p t : Ptr) (before after : Mem Process) : Type 0 where
  pub leaves : Leaves t (before p) (after p)
  pub others : (q : Ptr) → q ≢ p → after q ≡ before q

-- What process_detach_task has done when it returns 0; the task knows no process.
pub record Detached (m : Members) (p t : Ptr) (n : Members) : Type 0 where
  pub table : LeavesTable p t m.processes n.processes
  pub owner : n.tasks t ≡ record (m.tasks t) { process = null }

stored-Detached :
    (m n : Members) (p t : Ptr) (process : Process)
    → n.processes ≡ store m.processes p process
    → n.tasks ≡ store m.tasks t (record (m.tasks t) { process = null })
    → Leaves t (m.processes p) process
    → Detached m p t n
stored-Detached m n p t process end own l = record {
  owner = rw own (store_self m.tasks t (record (m.tasks t) { process = null }));
  table = record {
    leaves = rw end (rw (store_self m.processes p process) l);
    others = λ q off. rw end (store_ne m.processes p q process (λ e. off (sym e)));
  };
}

pub detach-Detached :
    (m : Members) (p t : Ptr)
    → failed (detach_task m p t).0 ≡ false
    → Detached m p t (detach_task m p t).1
unfolding detach_task find_task_index
detach-Detached m p t h =
    let process : Process = m.processes p in
    elim (Bool-cases ((p == null) || (t == null))) [
      | inl bad ↦ absurd (ground arith)
      | inr fine ↦ elim (Option-cases (find_from process.tasks t 0 process.task_count)) [
        | inl miss ↦ absurd (ground (arith, miss))
        | inr (index, there) ↦
            let (lt, at) = find_from-some process.tasks t 0 process.task_count index there in
            let ne : t ≢ null = ground arith in
            let end : (detach_task m p t).1.processes
                ≡ store m.processes p (compact process index) =
              ground (arith, there) in
            let own : (detach_task m p t).1.tasks
                ≡ store m.tasks t (record (m.tasks t) { process = null }) =
              ground (arith, there) in
            stored-Detached m (detach_task m p t).1 p t (compact process index) end own
              (compact-Leaves process t index ne (omega (arith, lt)) at)
      ]
    ]

-- `after` has the member `t` once more than `before`, and every other as often.
pub attach-Leaves :
    (m : Members) (p t : Ptr)
    → Admitted m p t
    → length (m.processes p).tasks ≡ 256
    → Leaves t ((attached m p t).processes p) (m.processes p)
unfolding times
attach-Leaves m p t a whole =
    let process : Process = m.processes p in
    let c : ℕ = process.task_count in
    let room : c < length process.tasks = omega (arith, whole, a.room) in
    let next : suc c ≡ c + 1 = omega arith in
    rw
      (store_self m.processes p
        (record process { tasks = set process.tasks c t; task_count = c + 1 }))
      (record {
        count = omega arith;
        members = λ u.
            let same = times-set_out process.tasks c t u c (omega arith) in
            let mine = get_or-set_self process.tasks c t null room in
            ap (λ (n : ℕ). n + one_if t u) (sym same)
            ∙ ap (λ (x : Ptr). times (set process.tasks c t) u c + one_if x u) (sym mine)
            ∙ ap (times (set process.tasks c t) u) next;
      })
