-- ===== src/Prelude/Slots.antt =====
-- A table of pointers, where NULL stands for a free slot.
use Prim.Native.Nat.{ℕ, zero, suc, ◌≤◌, ◌<◌}
use mathlib.Core.Path.{◌≡◌, refl, ap, sym}
use mathlib.Core.Logic.{◌≢◌}
use mathlib.Core.List.{List, [], ◌∷◌}
use native.Mathlib.Omega.{arith}
use batos_os.Prelude.Tests.{◌==◌, if◌then◌else◌}
use batos_os.Prelude.Lists.{length, get_or, set, replicate}
use batos_os.Prelude.Words.{Ptr, null}

-- The number of slots in use.
unfoldable pub occupied : List Ptr → ℕ
occupied [] = 0
occupied (x ∷ xs) = if x == null then occupied xs else suc (occupied xs)

pub occupied-replicate : (n : ℕ) → occupied (replicate n null) ≡ 0
unfolding occupied
occupied-replicate zero = refl
occupied-replicate (suc n) = occupied-replicate n

pub occupied_le : (xs : List Ptr) → occupied xs ≤ length xs
unfolding occupied
occupied_le [] = omega arith
occupied_le (x ∷ xs) = ground (arith, occupied_le xs)

-- A free slot leaves the table not full.
pub occupied_lt :
    (xs : List Ptr) (i : ℕ) → i < length xs → get_or xs i null ≡ null → occupied xs < length xs
unfolding occupied
occupied_lt [] i h e = elim h [ ]
occupied_lt (x ∷ xs) zero h e = ground (arith, occupied_le xs)
occupied_lt (x ∷ xs) (suc i) h e = ground (arith, occupied_lt xs i)

pub occupied-set_in :
    (xs : List Ptr) (i : ℕ) (t : Ptr)
    → i < length xs
    → get_or xs i null ≡ null
    → t ≢ null
    → occupied (set xs i t) ≡ suc (occupied xs)
unfolding occupied
occupied-set_in [] i t h e ne = elim h [ ]
occupied-set_in (x ∷ xs) zero t h e ne = ground arith
occupied-set_in (x ∷ xs) (suc i) t h e ne = ground (arith, occupied-set_in xs i t)

pub occupied-set_out :
    (xs : List Ptr) (i : ℕ)
    → i < length xs
    → get_or xs i null ≢ null
    → suc (occupied (set xs i null)) ≡ occupied xs
unfolding occupied
occupied-set_out [] i h ne = elim h [ ]
occupied-set_out (x ∷ xs) zero h ne = ground arith
occupied-set_out (x ∷ xs) (suc i) h ne = ground (arith, occupied-set_out xs i)

pub set-set :
    (xs : List Ptr) (i : ℕ) (t : Ptr) → get_or xs i null ≡ null → set (set xs i t) i null ≡ xs
set-set [] i t e = refl
set-set (x ∷ xs) zero t e = ap (λ y. y ∷ xs) (sym e)
set-set (x ∷ xs) (suc i) t e = ap (λ ys. x ∷ ys) (set-set xs i t e)

pub get_or-replicate : (n i : ℕ) → get_or (replicate n null) i null ≡ null
get_or-replicate zero i = refl
get_or-replicate (suc n) zero = refl
get_or-replicate (suc n) (suc i) = get_or-replicate n i
