-- ===== src/TaskRegistry/Slots.antt =====
-- The slots of kernel/sched/task_registry.c: a map from identifiers to tasks, and its count.
use batos_os.Prelude.{
  ℕ, suc, ◌-◌, ◌≤◌, ◌<◌, ◌≡◌, ◌≢◌, ◌⊎◌, refl, ◌∙◌, sym, inl, inr, true, false, not, ◌||◌, List, Ptr,
  null, Mem, arith, ret, err, length, get_or, set, length-set, length-replicate, get_or-set_self,
  occupied, occupied-replicate, occupied_lt, occupied-set_in, set-set, get_or-replicate,
  get_or-set_ne, ◌==◌, Bool-cases, if◌then◌else◌, add_u64,
}
use batos_os.Kernel.{Registry, Task, is_terminated}
use batos_os.TaskRegistry.{init, refuses, register, contains, unregister, find, count}

-- Every task of a table is filed under its identifier.
abbrev pub Filed : Mem Task → List Ptr → Type 0
Filed tasks xs = (i : ℕ) → get_or xs i null ≢ null → (tasks (get_or xs i null)).id ≡ suc i

pub Filed-set :
    (tasks : Mem Task) (xs : List Ptr)
    → Filed tasks xs
    → (j : ℕ) (t : Ptr) → j < length xs
    → (t ≢ null → (tasks t).id ≡ suc j)
    → Filed tasks (set xs j t)
Filed-set tasks xs f j t lt own i = elim (Bool-cases (j == i)) [
  | inl here ↦ let e : j ≡ i = ground arith in rw (← e, get_or-set_self xs j t null lt) own
  | inr there ↦ let e : j ≢ i = ground arith in rw (get_or-set_ne xs t null e) (f i)
]

-- The registry has its 256 slots, counts those in use, and files every task under its identifier.
pub record IsValid (tasks : Mem Task) (r : Registry) : Type 0 where
  pub ready : r.initialized ≡ true
  pub table : length r.slots ≡ 256
  pub counted : r.active_count ≡ occupied r.slots
  pub filed : Filed tasks r.slots

-- `task_registry_init` leaves a valid registry that finds nothing.
pub init-IsValid : (tasks : Mem Task) → IsValid tasks (init).1
unfolding init
init-IsValid tasks = record {
  ready = refl;
  table = length-replicate 256 null;
  counted = sym (occupied-replicate 256);
  filed = λ i ne. absurd (ne (get_or-replicate 256 i));
}

-- When `task_registry_register` admits a task: it is live, has an identifier from 1 to 256, and no
-- task is filed under it.
pub record Admits (tasks : Mem Task) (r : Registry) (t : Ptr) : Type 0 where
  pub ne_null : t ≢ null
  pub id_pos : (tasks t).id ≢ 0
  pub id_le : (tasks t).id ≤ 256
  pub live : is_terminated (tasks t).state ≡ false
  pub free : find r (tasks t).id ≡ null

abbrev registered : Mem Task → Registry → Ptr → Registry
registered tasks r t = record r {
  slots = set r.slots ((tasks t).id - 1) t;
  active_count = add_u64 r.active_count 1;
}

module _ {tasks : Mem Task} {r : Registry} {t : Ptr} (v : IsValid tasks r)
    (a : Admits tasks r t) where
  free_slot : get_or r.slots ((tasks t).id - 1) null ≡ null
  unfolding find
  free_slot = ground (arith, v.ready, a.free, a.id_pos, a.id_le)

  index_lt : (tasks t).id - 1 < length r.slots
  index_lt = omega (arith, v.table, a.id_le, a.id_pos)

  room : r.active_count < 256
  room = ground (arith, v.counted, v.table, occupied_lt r.slots _ index_lt free_slot)

  register_eq : register tasks r t ≡ (ret 0, registered tasks r t)
  unfolding register
  register_eq = ground (arith, v.ready, a.ne_null, a.id_pos, a.id_le, a.live, free_slot, room)

  registered-IsValid : IsValid tasks (registered tasks r t)
  registered-IsValid = record {
    ready = v.ready;
    table = length-set r.slots _ t ∙ v.table;
    counted =
        ground (arith, room, v.counted, occupied-set_in r.slots _ t index_lt free_slot a.ne_null);
    filed = Filed-set tasks r.slots v.filed _ t index_lt (λ ne. omega (arith, a.id_pos));
  }

-- A lookup in a table with one slot changed.
pub find-set :
    (r : Registry) (j n : ℕ) (t : Ptr)
    → r.initialized ≡ true
    → length r.slots ≡ 256
    → j < 256
    → (id : ℕ)
    → find (record r { slots = set r.slots j t; active_count = n }) id
      ≡ (if id == suc j then t else find r id)
unfolding find
find-set r j n t i table lt id = elim (Bool-cases (id == suc j)) [
  | inl here ↦ ground (arith, i, get_or-set_self r.slots j t null)
  | inr there ↦ ground (arith, i, get_or-set_ne r.slots {i = j} {j = id - 1} t null)
]

module _ {tasks : Mem Task} {r : Registry} {t : Ptr} (v : IsValid tasks r)
    (a : Admits tasks r t) where
  find-registered :
      (id : ℕ) → find (registered tasks r t) id ≡ (if id == (tasks t).id then t else find r id)
  find-registered id =
      rw
        (find-set r ((tasks t).id - 1) (add_u64 r.active_count 1) t v.ready v.table
          (omega (arith, a.id_pos, a.id_le)) id)
        (ground (arith, a.id_pos))

  count-registered : count (registered tasks r t) ≡ suc (count r)
  unfolding count
  count-registered = ground (arith, v.ready, room v a)

  -- A task that a valid registry admits is what its identifier finds afterwards, every other
  -- identifier finds what it did, the count is one more, and the registry stays valid.
  pub register_files :
      let (s, r') = register tasks r t in
      (s ≡ ret 0)
      × ((id : ℕ) → find r' id ≡ (if id == (tasks t).id then t else find r id))
      × (count r' ≡ suc (count r))
      × IsValid tasks r'
  register_files =
      rw (register_eq v a) (refl, find-registered, count-registered, registered-IsValid v a)

  -- In a valid registry, to register and unregister an admitted task is to do nothing.
  pub unregister-register : unregister tasks (register tasks r t).1 t ≡ (ret 0, r)
  unfolding unregister
  unregister-register = rw (register_eq v a) (
      ground (
        arith,
        v.ready,
        a.ne_null,
        a.id_pos,
        a.id_le,
        room v a,
        get_or-set_self r.slots ((tasks t).id - 1) t null (index_lt v a),
        set-set r.slots ((tasks t).id - 1) t (free_slot v a),
      ))

-- In a valid registry a task is admitted, or its registration fails and changes nothing.
pub register_refused :
    {tasks : Mem Task} {r : Registry} (t : Ptr)
    → IsValid tasks r
    → Admits tasks r t ⊎ (register tasks r t ≡ (err 1, r))
unfolding register find
register_refused {tasks} {r} t v =
    elim (Bool-cases (
      refuses tasks r t
      || is_terminated (tasks t).state
      || not (get_or r.slots ((tasks t).id - 1) null == null))) [
        | inl bad ↦ inr (ground arith)
        | inr good ↦ inl (ground (arith, v.ready))
      ]

-- In a valid registry, what an identifier finds has that identifier and is contained.
pub find_files :
    {tasks : Mem Task} {r : Registry} (id : ℕ)
    → IsValid tasks r
    → find r id ≢ null
    → ((tasks (find r id)).id ≡ id) × (contains tasks r (find r id) ≡ true)
unfolding find contains
find_files {tasks} {r} id v ne = ground (arith, v.filed (id - 1))
