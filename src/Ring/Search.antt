-- ===== src/Ring/Search.antt =====
-- The search loops of a ring look for a pointer in the list that the ring stands for.
use batos_os.Prelude.{
  ℕ, zero, suc, ◌+◌, ◌-◌, ◌%◌, ◌<◌, ◌≡◌, refl, ap, ◌∙◌, inl, inr, true, false, Option, none, some,
  List, ◌∷◌, ◌++◌, arith, Ptr, ◌==◌, ==_iff, Bool-cases, mem, mem-append, mem_cons_self,
}
use batos_os.Ring.{Ring, position, find_from, find}
use batos_os.Ring.Window.{slot, window, window-mod, window-append}
use batos_os.Ring.Valid.{contents}

-- What a search for `t` says of the entries from `h + i` on: none of them is `t`, or the one at
-- the index found is, and no earlier one.
abbrev pub Searched : List Ptr → ℕ → Ptr → (n i : ℕ) → Option ℕ → Type 0
Searched tasks h t n i none = mem t (window tasks (h + i) n) ≡ false
Searched tasks h t n i (some j) =
    (d : ℕ) × (j ≡ i + d)
    × (d < n)
    × (mem t (window tasks (h + i) d) ≡ false)
    × (slot tasks (h + j) ≡ t)

Searched-next :
    (tasks : List Ptr) (h t n i : ℕ) (o : Option ℕ)
    → (slot tasks (h + i) == t) ≡ false
    → Searched tasks h t n (i + 1) o
    → Searched tasks h t (suc n) i o
unfolding window mem
Searched-next tasks h t n i none ne rest =
    ground (arith, window-mod tasks (h + i + 1) (h + (i + 1)) n (omega arith))
Searched-next tasks h t n i (some j) ne (d, e, lt, out, at) = (
  suc d,
  omega arith,
  omega arith,
  ground (arith, window-mod tasks (h + i + 1) (h + (i + 1)) d (omega arith)),
  at,
)

find_from-Searched :
    (tasks : List Ptr) (h t n i : ℕ) → Searched tasks h t n i (find_from tasks h t n i)
unfolding find_from window mem
find_from-Searched tasks h t zero i = refl
find_from-Searched tasks h t (suc n) i =
    let same : position h i ≡ (h + i) % 256 = omega arith in
    rw same (elim (Bool-cases (slot tasks (h + i) == t)) [
      | inl hit ↦ rw hit (0, omega arith, omega arith, refl, (==_iff _ t).0 hit)
      | inr miss ↦ rw miss (
          Searched-next tasks h t n i (find_from tasks h t n (i + 1)) miss
            (find_from-Searched tasks h t n (i + 1)))
    ])

searched :
    (r : Ring) (t : Ptr) {o : Option ℕ} → find r t ≡ o → Searched r.tasks r.head t r.count 0 o
unfolding find
searched r t e = rw e at (find_from-Searched r.tasks r.head t r.count 0)

-- The list before and behind the entry that a search found.
pub record Found (r : Ring) (t : Ptr) (j : ℕ) : Type 0 where
  pub index_lt : j < r.count
  pub before : mem t (window r.tasks r.head j) ≡ false
  pub split :
      contents r
      ≡ window r.tasks r.head j ++ t ∷ window r.tasks (r.head + (j + 1)) (r.count - 1 - j)

pub find-none : (r : Ring) (t : Ptr) → find r t ≡ none → mem t (contents r) ≡ false
unfolding contents
find-none r t e =
    ap (mem t) (window-mod r.tasks r.head (r.head + 0) r.count (omega arith)) ∙ searched r t e

window_of_slot :
    (tasks : List Ptr) (h n j : ℕ) {t : Ptr}
    → j < n
    → slot tasks (h + j) ≡ t
    → window tasks h n ≡ window tasks h j ++ t ∷ window tasks (h + (j + 1)) (n - 1 - j)
unfolding window
window_of_slot tasks h n j {t} lt at =
    window-append tasks h j (suc (n - 1 - j)) n (omega arith)
    ∙ ap (◌++◌ (window tasks h j))
        (ground (arith, window-mod tasks (h + j + 1) (h + (j + 1)) (n - 1 - j) (omega arith)))

pub find-Found : (r : Ring) (t : Ptr) (j : ℕ) → find r t ≡ some j → Found r t j
unfolding contents
find-Found r t j e = go (searched r t e)
  where
    go : Searched r.tasks r.head t r.count 0 (some j) → Found r t j
    go (d, e', lt, out, at) =
        let same : mem t (window r.tasks (r.head + 0) j) ≡ false = ground arith in
        record {
          index_lt = omega arith;
          before = ap (mem t) (window-mod r.tasks r.head (r.head + 0) j (omega arith)) ∙ same;
          split = window_of_slot r.tasks r.head r.count j (omega arith) at;
        }

-- Exactly when the list holds the pointer the search finds an index.
pub find-mem : (r : Ring) (t : Ptr) {j : ℕ} → find r t ≡ some j → mem t (contents r) ≡ true
find-mem r t {j} e =
    let f = find-Found r t j e in
    rw f.split (rw (mem-append t (window r.tasks r.head j), mem_cons_self t, f.before) refl)
