-- ===== src/TaskRegistry/Free.antt =====
-- task_registry_unregister on a valid registry.
use batos_os.Prelude.{
  ℕ, suc, ◌-◌, ◌≤◌, ◌≡◌, ◌≢◌, refl, ◌∙◌, sym, true, false, Ptr, null, Mem, arith, ret, err, get_or,
  set, length-set, occupied, occupied-set_out, ◌==◌, if◌then◌else◌,
}
use batos_os.Kernel.{Registry, Task}
use batos_os.TaskRegistry.{contains, unregister, find, count}
use batos_os.TaskRegistry.Slots.{IsValid, Filed-set, find-set}

-- The state of the registry without `t`.
abbrev unregistered : Mem Task → Registry → Ptr → Registry
unregistered tasks r t = record r {
  slots = set r.slots ((tasks t).id - 1) null;
  active_count = r.active_count - 1;
}

module _ {tasks : Mem Task} {r : Registry} (t : Ptr) (v : IsValid tasks r)
    (h : contains tasks r t ≡ true) where
  held :
      (t ≢ null)
      × ((tasks t).id ≢ 0)
      × ((tasks t).id ≤ 256)
      × (get_or r.slots ((tasks t).id - 1) null ≡ t)
  unfolding contains
  held = ground arith

  one_less : suc (occupied (set r.slots ((tasks t).id - 1) null)) ≡ occupied r.slots
  one_less =
      let (ne, pos, le, at) = held in
      occupied-set_out r.slots ((tasks t).id - 1) (omega (arith, v.table)) (λ e. ne (sym at ∙ e))

  unregister_eq : unregister tasks r t ≡ (ret 0, unregistered tasks r t)
  unfolding unregister
  unregister_eq = ground (arith, v.ready, held, one_less, v.counted)

  unregistered-IsValid : IsValid tasks (unregistered tasks r t)
  unregistered-IsValid =
      let (ne, pos, le, at) = held in
      record {
        ready = v.ready;
        table = length-set r.slots _ null ∙ v.table;
        counted = omega (arith, one_less, v.counted);
        filed =
            Filed-set tasks r.slots v.filed _ null (omega (arith, v.table)) (λ n. absurd (n refl));
      }

  find-unregistered :
      (id : ℕ) → find (unregistered tasks r t) id ≡ (if id == (tasks t).id then null else find r id)
  find-unregistered id =
      let (ne, pos, le, at) = held in
      rw (find-set r ((tasks t).id - 1) (r.active_count - 1) null v.ready v.table (omega arith) id)
        (ground (arith))

  count-unregistered : suc (count (unregistered tasks r t)) ≡ count r
  unfolding count
  count-unregistered = ground (arith, v.ready, one_less, v.counted)

  -- In a valid registry, to unregister a task that it contains frees its identifier and no other,
  -- takes one off the count, and keeps the registry valid.
  pub unregister_frees :
      let (s, r') = unregister tasks r t in
      (s ≡ ret 0)
      × ((id : ℕ) → find r' id ≡ (if id == (tasks t).id then null else find r id))
      × (suc (count r') ≡ count r)
      × IsValid tasks r'
  unregister_frees =
      rw unregister_eq (refl, find-unregistered, count-unregistered, unregistered-IsValid)

-- To unregister another task fails, and the registry is what it was.
pub unregister_refused :
    (tasks : Mem Task) (r : Registry) (t : Ptr)
    → contains tasks r t ≡ false
    → unregister tasks r t ≡ (err 1, r)
unfolding unregister contains
unregister_refused tasks r t h = ground arith
