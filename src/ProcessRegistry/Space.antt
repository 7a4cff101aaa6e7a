-- ===== src/ProcessRegistry/Space.antt =====
-- The refusals of process_registry_register, and the search for an address space.
use batos_os.Prelude.{
  ℕ, zero, suc, ◌-◌, ◌<◌, ◌≡◌, ◌≢◌, ◌⊎◌, refl, ◌∙◌, sym, ap, inl, inr, true, not, ◌&&◌, List, [],
  ◌∷◌, Ptr, null, Mem, arith, err, length, get_or, ◌==◌, Bool-cases, if◌then◌else◌, leb,
}
use batos_os.ProcessRegistry.{
  Process, Processes, has_ended, holds, register, contains, find, find_space, find_by_address_space,
}
use batos_os.ProcessRegistry.Slots.{IsValid, Admits}

-- The number of the error that a registration returns, or 0 if it is admitted: the first test that
-- fails.
unfoldable pub refusal : Mem Process → Processes → Ptr → ℕ
refusal processes r p =
    if p == null
    then 1
    else if holds r.slots p
    then 2
    else if not (leb 1 (processes p).id && leb (processes p).id 256)
    then 3
    else if has_ended (processes p).state
    then 4
    else if find r (processes p).id == null
    then 0
    else 5

-- In a valid registry, a registration fails with the first of five refusals and changes nothing,
-- or the process is admitted.
pub register-refusal :
    {processes : Mem Process} {r : Processes} (p : Ptr)
    → IsValid processes r
    → ((refusal processes r p ≡ 0) × Admits processes r p)
      ⊎ ((refusal processes r p ≢ 0) × (register processes r p ≡ (err (refusal processes r p), r)))
unfolding register refusal find
register-refusal {processes} {r} p v = elim (Bool-cases (refusal processes r p == 0)) [
  | inl admitted ↦ inl (ground (arith, v.ready))
  | inr refused ↦ inr (ground (arith, v.ready))
]

-- What the search through the slots finds: the first process with that address space.
find_space_hit :
    (processes : Mem Process) (xs : List Ptr) (space : ℕ)
    → find_space processes xs space ≢ null
    → ((processes (find_space processes xs space)).address_space ≡ space)
      × ((i : ℕ) × (i < length xs) × (get_or xs i null ≡ find_space processes xs space))
unfolding find_space
find_space_hit processes [] space ne = absurd (ne refl)
find_space_hit processes (x ∷ xs) space ne =
    elim (Bool-cases (not (x == null) && ((processes x).address_space == space))) [
      | inl here ↦ rw here (ground arith, (0, omega arith, refl))
      | inr there ↦ rw there (
          let (e, (i, lt, at)) = find_space_hit processes xs space (ground (arith, there)) in
          (e, (suc i, omega arith, at)))
    ]

find_space_miss :
    (processes : Mem Process) (xs : List Ptr) (space : ℕ)
    → find_space processes xs space ≡ null
    → (i : ℕ) → get_or xs i null ≢ null
    → (processes (get_or xs i null)).address_space ≢ space
unfolding find_space
find_space_miss processes [] space e i ne = absurd (ne refl)
find_space_miss processes (x ∷ xs) space e zero ne = ground arith
find_space_miss processes (x ∷ xs) space e (suc i) ne =
    find_space_miss processes xs space (ground arith) i ne

contains_slot :
    {processes : Mem Process} {r : Processes} (p i : ℕ)
    → IsValid processes r
    → p ≢ null
    → i < length r.slots
    → get_or r.slots i null ≡ p
    → contains processes r p ≡ true
unfolding contains
contains_slot {processes} {r} p i v ne lt at =
    let id : (processes p).id ≡ suc i = rw (← at) (v.filed i (λ e. ne (sym at ∙ e))) in
    ground (arith, v.ready, v.table, id, at)

slot_contains :
    (processes : Mem Process) (r : Processes) (p : Ptr)
    → contains processes r p ≡ true
    → (p ≢ null) × (get_or r.slots ((processes p).id - 1) null ≡ p)
unfolding contains
slot_contains processes r p h = ground arith

space_scan :
    (processes : Mem Process) (r : Processes) (space : ℕ)
    → r.initialized ≡ true
    → space ≢ 0
    → find_by_address_space processes r space ≡ find_space processes r.slots space
unfolding find_by_address_space
space_scan processes r space i ne = ground (arith, i)

-- In a valid registry, the search by an address space other than 0 finds a registered process that
-- has it, or NULL if none has.
pub finds_space :
    {processes : Mem Process} {r : Processes} (space : ℕ)
    → IsValid processes r
    → space ≢ 0
    → let p = find_by_address_space processes r space in
      ((contains processes r p ≡ true) × ((processes p).address_space ≡ space))
      ⊎ ((p ≡ null)
          × ((q : Ptr) → contains processes r q ≡ true → (processes q).address_space ≢ space))
finds_space {processes} {r} space v ne =
    rw (space_scan processes r space v.ready ne)
      (elim (Bool-cases (find_space processes r.slots space == null)) [
        | inr hit ↦
            let some_process : find_space processes r.slots space ≢ null = ground arith in
            let (e, (i, lt, at)) = find_space_hit processes r.slots space some_process in
            inl (contains_slot (find_space processes r.slots space) i v some_process lt at, e)
        | inl miss ↦
            let nobody : find_space processes r.slots space ≡ null = ground arith in
            inr (
              nobody,
              λ q h.
                  let (qne, at) = slot_contains processes r q h in
                  λ e.
                    find_space_miss processes r.slots space nobody ((processes q).id - 1)
                      (λ z. qne (sym at ∙ z))
                      (ap (λ (x : Ptr). (processes x).address_space) at ∙ e),
            )
      ])
