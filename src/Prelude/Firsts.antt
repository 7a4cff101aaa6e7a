-- ===== src/Prelude/Firsts.antt =====
-- The first element of a table that meets a test, and a write to it.
use mathlib.Core.Path.{◌≡◌, refl, ap}
use mathlib.Core.Bool.{Bool, true, false}
use mathlib.Core.Option.{Option, none, some}
use mathlib.Core.List.{List, [], ◌∷◌, ◌++◌}
use native.Mathlib.Omega.{arith}
use batos_os.Prelude.Tests.{if◌then◌else◌}

module _ {A : Type 0} where
  unfoldable pub find_first : (A → Bool) → List A → Option A
  find_first test [] = none
  find_first test (x ∷ xs) = if test x then some x else find_first test xs

  unfoldable pub update_first : (A → Bool) → (A → A) → List A → List A
  update_first test change [] = []
  update_first test change (x ∷ xs) =
      if test x then change x ∷ xs else x ∷ update_first test change xs

  module _ (hit test : A → Bool) (change : A → A) where
    -- A write to an element that is no hit, before and after, changes no search.
    pub find_first-update_ne :
        ((x : A) → test x ≡ true → (hit x ≡ false) × (hit (change x) ≡ false))
        → (xs : List A) → find_first hit (update_first test change xs) ≡ find_first hit xs
    unfolding find_first update_first
    find_first-update_ne h [] = refl
    find_first-update_ne h (x ∷ xs) = ground (arith, h x, find_first-update_ne h xs)

    -- A write that makes the only hit is found.
    pub find_first-update_self :
        ((x : A) → test x ≡ true → hit (change x) ≡ true)
        → (xs : List A) (y : A) → find_first hit xs ≡ none
        → find_first test xs ≡ some y
        → find_first hit (update_first test change xs) ≡ some (change y)
    unfolding find_first update_first
    find_first-update_self h [] y miss free = ground arith
    find_first-update_self h (x ∷ xs) y miss free =
        ground (arith, h x, find_first-update_self h xs y, ap change)

  pub find_first-snoc :
      (hit : A → Bool) (xs : List A) (y : A)
      → find_first hit xs ≡ none
      → find_first hit (xs ++ y ∷ []) ≡ (if hit y then some y else none)
  unfolding find_first
  find_first-snoc hit [] y h = refl
  find_first-snoc hit (x ∷ xs) y h = ground (arith, find_first-snoc hit xs y)

  pub find_first-snoc_ne :
      (hit : A → Bool) (xs : List A) (y : A)
      → hit y ≡ false
      → find_first hit (xs ++ y ∷ []) ≡ find_first hit xs
  unfolding find_first
  find_first-snoc_ne hit [] y h = ground arith
  find_first-snoc_ne hit (x ∷ xs) y h = ground (arith, find_first-snoc_ne hit xs y)

  -- A write to what a search finds, that leaves it a hit.
  pub find_first-update_found :
      (test : A → Bool) (change : A → A)
      → ((x : A) → test x ≡ true → test (change x) ≡ true)
      → (xs : List A) (y : A) → find_first test xs ≡ some y
      → find_first test (update_first test change xs) ≡ some (change y)
  unfolding find_first update_first
  find_first-update_found test change h [] y f = ground arith
  find_first-update_found test change h (x ∷ xs) y f =
      ground (arith, h x, find_first-update_found test change h xs y, ap change)
