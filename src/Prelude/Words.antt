-- ===== src/Prelude/Words.antt =====
-- Pointers, 64-bit words, C results, and memory as a function of the address.
use Prim.Native.Nat.{ℕ, ◌+◌, ◌-◌, ◌%◌, ◌^◌}
use mathlib.Core.Path.{◌≡◌, fun_ext, ap}
use mathlib.Core.Logic.{◌≢◌, inl, inr}
use mathlib.Core.Bool.{Bool, true, false}
use native.Mathlib.Omega.{arith}
use batos_os.Prelude.Tests.{◌==◌, if◌then◌else◌, Bool-cases}

abbrev pub Ptr : Type 0
Ptr = ℕ

abbrev pub null : Ptr
null = 0

-- `uint64_t` addition and subtraction.
abbrev pub add_u64 : ℕ → ℕ → ℕ
add_u64 a b = (a + b) % 2 ^ 64

abbrev pub sub_u64 : ℕ → ℕ → ℕ
sub_u64 a b = (a + 2 ^ 64 - b) % 2 ^ 64

-- A C `int` used as a status: `ret n` is n, and `err n` is -n.
pub data Status : Type 0 where
  ret : ℕ → Status
  err : ℕ → Status

-- The C test `status != 0`.
abbrev pub failed : Status → Bool
failed (ret n) = if n == 0 then false else true
failed (err n) = if n == 0 then false else true

-- Memory that holds an `A` at every address, and a write to it.
abbrev pub Mem : Type 0 → Type 0
Mem A = Ptr → A

unfoldable pub store : {A : Type 0} → Mem A → Ptr → A → Mem A
store m p v q = if p == q then v else m q

pub store_self : {A : Type 0} (m : Mem A) (p : Ptr) (v : A) → store m p v p ≡ v
unfolding store
store_self m p v = ground arith

pub store_ne : {A : Type 0} (m : Mem A) (p q : Ptr) (v : A) → p ≢ q → store m p v q ≡ m q
unfolding store
store_ne m p q v h = ground arith

-- A second write to the same address replaces the first.
pub store-store :
    {A : Type 0} (m : Mem A) (p : Ptr) (v w : A) → store (store m p v) p w ≡ store m p w
unfolding store
store-store m p v w = fun_ext λ q. ground arith

-- To write back what stood there undoes a write.
pub store-restore :
    {A : Type 0} (m : Mem A) (p : Ptr) (v w : A) → w ≡ m p → store (store m p v) p w ≡ m
unfolding store
store-restore m p v w e = fun_ext λ q. elim (Bool-cases (p == q)) [
  | inl here ↦ let at : p ≡ q = ground arith in ground (arith, e, ap m at)
  | inr there ↦ ground arith
]
