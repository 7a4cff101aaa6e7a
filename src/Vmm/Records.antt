-- ===== src/Vmm/Records.antt =====
-- The registry of page-table frames: what a search finds after a record is filled or released.
use batos_os.Prelude.{
  ℕ, ◌≡◌, ◌≢◌, refl, ap, true, List, [], ◌∷◌, ◌++◌, Option, none, some, arith, Ptr, find_first,
  update_first, find_first-update_ne, find_first-update_self, find_first-snoc, find_first-snoc_ne,
}
use batos_os.Vmm.{TableRecord, is_free, is_at, filled, blank, released}

abbrev pub lookup : List TableRecord → Ptr → Option TableRecord
lookup rs p = find_first (is_at p) rs

-- No two records in use are of one frame.
abbrev pub AreUnique : List TableRecord → Type 0
AreUnique [] = Unit {0}
AreUnique (r ∷ rs) = (r.in_use ≡ true → lookup rs r.physical_address ≡ none) × AreUnique rs

module _ (rs : List TableRecord) (p : Ptr) (level : ℕ) (owner : Ptr) where
  abbrev pub reused : List TableRecord
  reused = update_first is_free (filled p level owner) rs

  abbrev pub appended : List TableRecord
  appended = rs ++ filled p level owner blank ∷ []

  pub lookup-reused_ne : (q : Ptr) → q ≢ p → lookup reused q ≡ lookup rs q
  lookup-reused_ne q ne =
      find_first-update_ne (is_at q) is_free (filled p level owner) (λ x free. ground (arith, ne))
        rs

  pub lookup-appended_ne : (q : Ptr) → q ≢ p → lookup appended q ≡ lookup rs q
  lookup-appended_ne q ne = find_first-snoc_ne (is_at q) rs _ (ground (arith, ne))

  pub lookup-reused_self :
      (y : TableRecord)
      → lookup rs p ≡ none
      → find_first is_free rs ≡ some y
      → lookup reused p ≡ some (filled p level owner y)
  lookup-reused_self y miss free =
      find_first-update_self (is_at p) is_free (filled p level owner) (λ x f. ground arith) rs y
        miss free

  pub lookup-appended_self :
      lookup rs p ≡ none → lookup appended p ≡ some (filled p level owner blank)
  lookup-appended_self miss =
      ground (arith, find_first-snoc (is_at p) rs (filled p level owner blank))

pub reused-AreUnique :
    (rs : List TableRecord) (p : Ptr) (level : ℕ) (owner : Ptr)
    → AreUnique rs
    → lookup rs p ≡ none
    → AreUnique (reused rs p level owner)
unfolding find_first update_first
reused-AreUnique [] p level owner u miss = tt
reused-AreUnique (r ∷ rs) p level owner u miss = ground (
  arith,
  u.0,
  u.1,
  lookup-reused_ne rs p level owner r.physical_address,
  reused-AreUnique rs p level owner u.1,
)

pub appended-AreUnique :
    (rs : List TableRecord) (p : Ptr) (level : ℕ) (owner : Ptr)
    → AreUnique rs
    → lookup rs p ≡ none
    → AreUnique (appended rs p level owner)
unfolding find_first
appended-AreUnique [] p level owner u miss = (λ h. refl, tt)
appended-AreUnique (r ∷ rs) p level owner u miss = ground (
  arith,
  u.0,
  u.1,
  lookup-appended_ne rs p level owner r.physical_address,
  appended-AreUnique rs p level owner u.1,
)

abbrev pub without : List TableRecord → Ptr → List TableRecord
without rs p = update_first (is_at p) released rs

pub lookup-without_ne :
    (rs : List TableRecord) (p q : Ptr) → q ≢ p → lookup (without rs p) q ≡ lookup rs q
lookup-without_ne rs p q ne =
    find_first-update_ne (is_at q) (is_at p) released (λ x h. ground (arith, ne)) rs

pub lookup-without_self :
    (rs : List TableRecord) (p : Ptr) → AreUnique rs → lookup (without rs p) p ≡ none
unfolding find_first update_first
lookup-without_self [] p u = refl
lookup-without_self (r ∷ rs) p u = ground (arith, u.0, ap (lookup rs), lookup-without_self rs p u.1)

pub without-AreUnique : (rs : List TableRecord) (p : Ptr) → AreUnique rs → AreUnique (without rs p)
unfolding find_first update_first
without-AreUnique [] p u = tt
without-AreUnique (r ∷ rs) p u = ground (
  arith,
  u.0,
  ap (lookup rs),
  lookup-without_ne rs p r.physical_address,
  without-AreUnique rs p u.1,
)
