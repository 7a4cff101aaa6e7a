-- ===== src/Prelude/Lists.antt =====
-- Lists measured and indexed by native numbers, under the library's names, and lists of pointers.
use Prim.Native.Nat.{ℕ, zero, suc, ◌+◌, ◌<◌}
use mathlib.Core.Path.{◌≡◌, refl, ap}
use mathlib.Core.Logic.{◌≢◌}
use mathlib.Core.Bool.{Bool, true, false, ◌||◌}
use mathlib.Core.List.{List, [], ◌∷◌, ◌++◌}
use native.Mathlib.Omega.{arith}
use batos_os.Prelude.Tests.{◌==◌, if◌then◌else◌}

module _ {ℓ} {A : Type ℓ} where
  abbrev pub length : List A → ℕ
  length [] = 0
  length (x ∷ xs) = suc (length xs)

  abbrev pub get_or : List A → ℕ → A → A
  get_or [] i d = d
  get_or (x ∷ xs) zero d = x
  get_or (x ∷ xs) (suc i) d = get_or xs i d

  -- A write out of bounds changes nothing.
  abbrev pub set : List A → ℕ → A → List A
  set [] i v = []
  set (x ∷ xs) zero v = v ∷ xs
  set (x ∷ xs) (suc i) v = x ∷ set xs i v

  abbrev pub replicate : ℕ → A → List A
  replicate zero a = []
  replicate (suc n) a = a ∷ replicate n a

  pub length-append : (xs ys : List A) → length (xs ++ ys) ≡ length xs + length ys
  length-append [] ys = omega arith
  length-append (x ∷ xs) ys = omega (arith, length-append xs ys)

  pub length-set : (xs : List A) (i : ℕ) (v : A) → length (set xs i v) ≡ length xs
  length-set [] i v = refl
  length-set (x ∷ xs) zero v = refl
  length-set (x ∷ xs) (suc i) v = ap suc (length-set xs i v)

  pub length-replicate : (n : ℕ) (a : A) → length (replicate n a) ≡ n
  length-replicate zero a = refl
  length-replicate (suc n) a = ap suc (length-replicate n a)

  pub get_or-set_self :
      (xs : List A) (i : ℕ) (v d : A) → i < length xs → get_or (set xs i v) i d ≡ v
  get_or-set_self [] i v d h = elim h [ ]
  get_or-set_self (x ∷ xs) zero v d h = refl
  get_or-set_self (x ∷ xs) (suc i) v d h = get_or-set_self xs i v d (omega arith)

  pub get_or-set_ne :
      (xs : List A) {i j : ℕ} (v d : A) → i ≢ j → get_or (set xs i v) j d ≡ get_or xs j d
  get_or-set_ne [] v d h = refl
  get_or-set_ne (x ∷ xs) {i = zero} {j = zero} v d h = absurd (h refl)
  get_or-set_ne (x ∷ xs) {i = zero} {j = suc j} v d h = refl
  get_or-set_ne (x ∷ xs) {i = suc i} {j = zero} v d h = refl
  get_or-set_ne (x ∷ xs) {i = suc i} {j = suc j} v d h = get_or-set_ne xs v d (λ e. h (ap suc e))

-- Whether a pointer stands in a list, and the list without its first occurrence.
unfoldable pub mem : ℕ → List ℕ → Bool
mem t [] = false
mem t (x ∷ xs) = (x == t) || mem t xs

unfoldable pub erase : ℕ → List ℕ → List ℕ
erase t [] = []
erase t (x ∷ xs) = if x == t then xs else x ∷ erase t xs

-- No pointer stands twice.
abbrev pub NoDup : List ℕ → Type 0
NoDup [] = Unit {0}
NoDup (x ∷ xs) = (mem x xs ≡ false) × NoDup xs

pub mem-append : (t : ℕ) (xs ys : List ℕ) → mem t (xs ++ ys) ≡ (mem t xs || mem t ys)
unfolding mem
mem-append t [] ys = refl
mem-append t (x ∷ xs) ys = ground (arith, mem-append t xs ys)

pub mem_cons_self : (t : ℕ) (xs : List ℕ) → mem t (t ∷ xs) ≡ true
unfolding mem
mem_cons_self t xs = ground arith

pub mem_one : (t u : ℕ) → mem t (u ∷ []) ≡ (u == t)
unfolding mem
mem_one t u = ground arith

pub mem_of_erase : (t u : ℕ) (xs : List ℕ) → mem t (erase u xs) ≡ true → mem t xs ≡ true
unfolding mem erase
mem_of_erase t u [] h = h
mem_of_erase t u (x ∷ xs) h = ground (arith, mem_of_erase t u xs)

pub mem-erase_ne : (t u : ℕ) (xs : List ℕ) → u ≢ t → mem t (erase u xs) ≡ mem t xs
unfolding mem erase
mem-erase_ne t u [] h = refl
mem-erase_ne t u (x ∷ xs) h = ground (arith, mem-erase_ne t u xs)

pub not-mem-erase : (t : ℕ) (xs : List ℕ) → NoDup xs → mem t (erase t xs) ≡ false
unfolding mem erase
not-mem-erase t [] h = refl
not-mem-erase t (x ∷ xs) h = ground (arith, not-mem-erase t xs)

pub erase-append : (t : ℕ) (xs ys : List ℕ) → mem t xs ≡ false → erase t (xs ++ t ∷ ys) ≡ xs ++ ys
unfolding mem erase
erase-append t [] ys h = ground arith
erase-append t (x ∷ xs) ys h = ground (arith, erase-append t xs ys)

pub erase-NoDup : (t : ℕ) (xs : List ℕ) → NoDup xs → NoDup (erase t xs)
unfolding mem erase
erase-NoDup t [] h = tt
erase-NoDup t (x ∷ xs) h = ground (arith, erase-NoDup t xs, mem_of_erase x t xs)

pub snoc-NoDup : (t : ℕ) (xs : List ℕ) → NoDup xs → mem t xs ≡ false → NoDup (xs ++ t ∷ [])
unfolding mem
snoc-NoDup t [] h k = (refl, tt)
snoc-NoDup t (x ∷ xs) h k = ground (arith, snoc-NoDup t xs, mem-append x xs (t ∷ []))
