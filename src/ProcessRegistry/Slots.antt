-- ===== src/ProcessRegistry/Slots.antt =====
-- What process_registry.c does to a valid table of processes.
use batos_os.Prelude.{
  ℕ, suc, ◌-◌, ◌≤◌, ◌<◌, ◌≡◌, ◌≢◌, refl, ◌∙◌, sym, inl, inr, true, false, List, Ptr, null, Mem,
  arith, ret, length, get_or, set, length-set, length-replicate, get_or-set_self, occupied,
  occupied-replicate, occupied_lt, occupied-set_in, set-set, get_or-replicate, get_or-set_ne, ◌==◌,
  Bool-cases, add_u64,
}
use batos_os.ProcessRegistry.{
  Process, Processes, has_ended, init, holds, register, unregister, find, count,
}

-- Every process of a table is filed under its identifier.
abbrev pub Filed : Mem Process → List Ptr → Type 0
Filed processes xs = (i : ℕ) → get_or xs i null ≢ null → (processes (get_or xs i null)).id ≡ suc i

pub record IsValid (processes : Mem Process) (r : Processes) : Type 0 where
  pub ready : r.initialized ≡ true
  pub table : length r.slots ≡ 256
  pub counted : r.count_value ≡ occupied r.slots
  pub filed : Filed processes r.slots

pub init-IsValid : (processes : Mem Process) → IsValid processes (init).1
unfolding init
init-IsValid processes = record {
  ready = refl;
  table = length-replicate 256 null;
  counted = sym (occupied-replicate 256);
  filed = λ i ne. absurd (ne (get_or-replicate 256 i));
}

-- When process_registry_register admits a process: it is not in the table, is live, has an
-- identifier from 1 to 256, and no process is filed under it.
pub record Admits (processes : Mem Process) (r : Processes) (p : Ptr) : Type 0 where
  pub ne_null : p ≢ null
  pub absent : holds r.slots p ≡ false
  pub id_pos : (processes p).id ≢ 0
  pub id_le : (processes p).id ≤ 256
  pub live : has_ended (processes p).state ≡ false
  pub free : find r (processes p).id ≡ null

abbrev registered : Mem Process → Processes → Ptr → Processes
registered processes r p = record r {
  slots = set r.slots ((processes p).id - 1) p;
  count_value = add_u64 r.count_value 1;
}

Filed-in :
    (processes : Mem Process) (xs : List Ptr) (p : Ptr)
    → Filed processes xs
    → (processes p).id ≢ 0
    → (processes p).id - 1 < length xs
    → Filed processes (set xs ((processes p).id - 1) p)
Filed-in processes xs p f pos lt i = elim (Bool-cases ((processes p).id - 1 == i)) [
  | inl here ↦
      let e : (processes p).id - 1 ≡ i = ground arith in
      rw (← e, get_or-set_self xs ((processes p).id - 1) p null lt) (λ ne. omega arith)
  | inr there ↦
      let e : (processes p).id - 1 ≢ i = ground arith in rw (get_or-set_ne xs p null e) (f i)
]

module _ {processes : Mem Process} {r : Processes} {p : Ptr} (v : IsValid processes r)
    (a : Admits processes r p) where
  free_slot : get_or r.slots ((processes p).id - 1) null ≡ null
  unfolding find
  free_slot = ground (arith, v.ready, a.free, a.id_pos, a.id_le)

  index_lt : (processes p).id - 1 < length r.slots
  index_lt = omega (arith, v.table, a.id_le, a.id_pos)

  room : r.count_value < 256
  room = ground (arith, v.counted, v.table, occupied_lt r.slots _ index_lt free_slot)

  register_eq : register processes r p ≡ (ret 0, registered processes r p)
  unfolding register
  register_eq = ground (arith, v.ready, a.ne_null, a.absent, a.id_pos, a.id_le, a.live, free_slot)

  registered-IsValid : IsValid processes (registered processes r p)
  registered-IsValid = record {
    ready = v.ready;
    table = length-set r.slots _ p ∙ v.table;
    counted =
        ground (arith, room, v.counted, occupied-set_in r.slots _ p index_lt free_slot a.ne_null);
    filed = Filed-in processes r.slots p v.filed a.id_pos index_lt;
  }

  find_self : find (registered processes r p) (processes p).id ≡ p
  unfolding find
  find_self = ground (
    arith,
    v.ready,
    a.id_pos,
    a.id_le,
    get_or-set_self r.slots ((processes p).id - 1) p null index_lt,
  )

  find_other : (id : ℕ) → id ≢ (processes p).id → find (registered processes r p) id ≡ find r id
  unfolding find
  find_other id ne = ground (
    arith,
    v.ready,
    a.id_pos,
    get_or-set_ne r.slots {i = (processes p).id - 1} {j = id - 1} p null,
  )

  counts_one : count (registered processes r p) ≡ suc (count r)
  unfolding count
  counts_one = ground (arith, room)

  -- A process that a valid registry admits is what its identifier finds afterwards, every other
  -- identifier finds what it did, the count is one more, and the registry stays valid.
  pub registers :
      let (s, r') = register processes r p in
      (s ≡ ret 0)
      × (find r' (processes p).id ≡ p)
      × ((id : ℕ) → id ≢ (processes p).id → find r' id ≡ find r id)
      × (count r' ≡ suc (count r))
      × IsValid processes r'
  registers = rw register_eq (refl, find_self, find_other, counts_one, registered-IsValid)

  -- In a valid registry, to register and unregister an admitted process is to do nothing.
  pub unregister-registered : unregister processes (register processes r p).1 p ≡ (ret 0, r)
  unfolding unregister
  unregister-registered = rw register_eq (
      ground (
        arith,
        v.ready,
        a.ne_null,
        a.id_pos,
        a.id_le,
        room,
        get_or-set_self r.slots ((processes p).id - 1) p null index_lt,
        set-set r.slots ((processes p).id - 1) p free_slot,
      ))
