-- ===== src/Prelude/Bits.antt =====
-- Masks of 64-bit words as arithmetic: low bits, one bit, and a page's address.
use Prim.Native.Nat.{
  ℕ, zero, suc, ◌+◌, ◌*◌, ◌/◌, ◌%◌, ◌^◌, ◌≤◌, ◌<◌, min, max, bit_and, bit_or, digits,
  bit_and-bitwise, bit_or-bitwise,
}
use mathlib.Core.Path.{◌≡◌, refl, sym, ap, ap₂, ◌∙◌, ◌≡⟨◌⟩◌, ◌∎}
use native.Mathlib.Omega.{arith}

-- Both operations work digit by digit, on fuel that the first number bounds: `last` is what is left of
-- the second number when the first has no digit more.
module _ (last : ℕ → ℕ) (op : ℕ → ℕ → ℕ) where
  -- Fuel above the bound makes no difference.
  enough : (k a b : ℕ) → a ≤ k → (m : ℕ) → a ≤ m → digits last op k a b ≡ digits last op m a b
  enough zero zero b below zero fits = refl
  enough zero zero b below (suc m) fits = refl
  enough (suc k) zero b below zero fits = refl
  enough (suc k) zero b below (suc m) fits = refl
  enough zero (suc a) b below m fits = elim below [ ]
  enough (suc k) (suc a) b below zero fits = elim fits [ ]
  enough (suc k) (suc a) b below (suc m) fits =
      let rest = enough k (suc a / 2) (b / 2) (omega arith) m (omega arith) in omega (arith, rest)

  -- The lowest digit, and the digits above it.
  halves :
      ((b : ℕ) → last b ≡ last (b / 2) * 2 + op 0 (b % 2))
      → (a b : ℕ)
      → digits last op a a b ≡ digits last op (a / 2) (a / 2) (b / 2) * 2 + op (a % 2) (b % 2)
  halves base zero b = base b
  halves base (suc k) b =
      let rest = enough k (suc k / 2) (b / 2) (omega arith) (suc k / 2) (omega arith) in
      omega (arith, rest)

pub bit_and_halves : (x y : ℕ) → bit_and x y ≡ bit_and (x / 2) (y / 2) * 2 + min (x % 2) (y % 2)
bit_and_halves x y =
    bit_and-bitwise x y
    ∙ halves (λ t. 0) min (λ t. omega arith) x y
    ∙ ap (λ (t : ℕ). t * 2 + min (x % 2) (y % 2)) (sym (bit_and-bitwise (x / 2) (y / 2)))

pub bit_or_halves : (x y : ℕ) → bit_or x y ≡ bit_or (x / 2) (y / 2) * 2 + max (x % 2) (y % 2)
bit_or_halves x y =
    bit_or-bitwise x y
    ∙ halves (λ t. t) max (λ t. omega arith) x y
    ∙ ap (λ (t : ℕ). t * 2 + max (x % 2) (y % 2)) (sym (bit_or-bitwise (x / 2) (y / 2)))

-- Without a bit in the mask, nothing is kept; without a bit to set, everything.
no_mask : (k x : ℕ) → x ≤ k → (bit_and x 0 ≡ 0) × (bit_or x 0 ≡ x)
no_mask k zero fits = (refl, refl)
no_mask zero (suc x) fits = elim fits [ ]
no_mask (suc k) (suc x) fits =
    let (kept, set) = no_mask k (suc x / 2) (omega arith) in
    (omega (arith, kept, bit_and_halves (suc x) 0), omega (arith, set, bit_or_halves (suc x) 0))

pub bit_and-zero : (x : ℕ) → bit_and x 0 ≡ 0
bit_and-zero x = (no_mask x x (omega arith)).0

pub bit_or-zero : (x : ℕ) → bit_or x 0 ≡ x
bit_or-zero x = (no_mask x x (omega arith)).1

-- Powers of two by doubling.
pow2 : ℕ → ℕ
pow2 zero = 1
pow2 (suc k) = pow2 k * 2

ones : ℕ → ℕ
ones zero = 0
ones (suc k) = ones k * 2 + 1

mod_double : (x m : ℕ) → 0 < m → x % (m * 2) ≡ x / 2 % m * 2 + x % 2
mod_double x m h = grind arith

pow2_pos : (k : ℕ) → 0 < pow2 k
unfolding pow2
pow2_pos zero = omega arith
pow2_pos (suc k) = omega (arith, pow2_pos k)

-- A mask of `k` ones keeps the low `k` bits.
bit_and-ones : (k x : ℕ) → bit_and x (ones k) ≡ x % pow2 k
unfolding ones pow2
bit_and-ones zero x = omega (arith, bit_and-zero x)
bit_and-ones (suc k) x =
    let half : bit_and (x / 2) ((ones k * 2 + 1) / 2) ≡ x / 2 % pow2 k =
      ap (bit_and (x / 2)) (omega arith) ∙ bit_and-ones k (x / 2) in
    omega (arith, half, bit_and_halves x (ones k * 2 + 1), mod_double x (pow2 k) (pow2_pos k))

-- Two shifted masks.
bit_and-double : (x m : ℕ) → bit_and x (m * 2) ≡ bit_and (x / 2) m * 2
bit_and-double x m =
    let half : bit_and (x / 2) (m * 2 / 2) ≡ bit_and (x / 2) m =
      ap (bit_and (x / 2)) (omega arith) in
    omega (arith, half, bit_and_halves x (m * 2))

-- A mask shifted by `k` bits.
bit_and-shift : (k x m : ℕ) → bit_and x (m * pow2 k) ≡ bit_and (x / pow2 k) m * pow2 k
unfolding pow2
bit_and-shift zero x m =
    let e : bit_and x (m * 1) ≡ bit_and (x / 1) m = ap₂ bit_and (omega arith) (omega arith) in
    omega (arith, e)
bit_and-shift (suc k) x m =
    let e : m * (pow2 k * 2) ≡ m * pow2 k * 2 = grind arith in
    let d : x / 2 / pow2 k ≡ x / (pow2 k * 2) = grind (arith, pow2_pos k) in
    bit_and x (m * (pow2 k * 2))
    ≡⟨ ap (bit_and x) e ⟩ bit_and x (m * pow2 k * 2)
    ≡⟨ bit_and-double x (m * pow2 k) ⟩ bit_and (x / 2) (m * pow2 k) * 2
    ≡⟨ ap (λ (t : ℕ). t * 2) (bit_and-shift k (x / 2) m) ⟩ bit_and (x / 2 / pow2 k) m * pow2 k * 2
    ≡⟨ ap (λ (t : ℕ). bit_and t m * pow2 k * 2) d ⟩ bit_and (x / (pow2 k * 2)) m * pow2 k * 2
    ≡⟨ grind arith ⟩ bit_and (x / (pow2 k * 2)) m * (pow2 k * 2) ∎

-- The bits of a number that has none of the low `k`, and a number of `k` bits, stand side by side.
bit_or-shift : (k c b : ℕ) → b < pow2 k → bit_or (c * pow2 k) b ≡ c * pow2 k + b
unfolding pow2
bit_or-shift zero c b h =
    let e : bit_or (c * 1) b ≡ bit_or (c * 1) 0 = ap (bit_or (c * 1)) (omega arith) in
    omega (arith, e, bit_or-zero (c * 1))
bit_or-shift (suc k) c b h =
    let e : c * (pow2 k * 2) ≡ c * pow2 k * 2 = grind arith in
    let half : bit_or (c * (pow2 k * 2) / 2) (b / 2) ≡ bit_or (c * pow2 k) (b / 2) =
      ap (λ (t : ℕ). bit_or t (b / 2)) (omega (arith, e)) in
    omega
      (arith, e, half, bit_or-shift k c (b / 2) (omega arith), bit_or_halves (c * (pow2 k * 2)) b)

-- The bits above the low `k` stay.
bit_or-above :
    (k c a b : ℕ) → a < pow2 k → b < pow2 k → bit_or (c * pow2 k + a) b ≡ c * pow2 k + bit_or a b
unfolding pow2
bit_or-above zero c a b h l =
    let za : a ≡ 0 = omega arith in
    let zb : b ≡ 0 = omega arith in
    let e : bit_or (c * 1 + a) b ≡ bit_or (c * 1) 0 = ap₂ bit_or (omega arith) (omega arith) in
    let d : bit_or a b ≡ bit_or 0 0 = ap₂ bit_or za zb in
    omega (arith, e, d, bit_or-zero (c * 1), bit_or-zero 0)
bit_or-above (suc k) c a b h l =
    let e : c * (pow2 k * 2) ≡ c * pow2 k * 2 = grind arith in
    let half : bit_or ((c * (pow2 k * 2) + a) / 2) (b / 2) ≡ bit_or (c * pow2 k + a / 2) (b / 2) =
      ap (λ (t : ℕ). bit_or t (b / 2)) (omega (arith, e)) in
    let low : max ((c * (pow2 k * 2) + a) % 2) (b % 2) ≡ max (a % 2) (b % 2) =
      ap (λ (t : ℕ). max t (b % 2)) (omega (arith, e)) in
    omega (
      arith,
      e,
      half,
      low,
      bit_or-above k c (a / 2) (b / 2) (omega arith) (omega arith),
      bit_or_halves (c * (pow2 k * 2) + a) b,
      bit_or_halves a b,
    )

-- The masks of a page table's entry.
pub bit_and-one : (x : ℕ) → bit_and x 1 ≡ x % 2
unfolding ones pow2
bit_and-one x = bit_and-ones 1 x

pub bit_and_offset : (x : ℕ) → bit_and x 4095 ≡ x % 4096
unfolding ones pow2
bit_and_offset x = bit_and-ones 12 x

pub bit_and_index : (x : ℕ) → bit_and x 511 ≡ x % 512
unfolding ones pow2
bit_and_index x = bit_and-ones 9 x

pub bit_and_user : (x : ℕ) → bit_and x 4 ≡ x / 4 % 2 * 4
unfolding ones pow2
bit_and_user x = omega (arith, bit_and-shift 2 x 1, bit_and-one (x / 4))

pub bit_and_leaf : (x : ℕ) → bit_and x 6 ≡ x / 2 % 4 * 2
unfolding ones pow2
bit_and_leaf x = omega (arith, bit_and-shift 1 x 3, bit_and-ones 2 (x / 2))

pub bit_and_huge : (x : ℕ) → bit_and x 128 ≡ x / 128 % 2 * 128
unfolding ones pow2
bit_and_huge x = omega (arith, bit_and-shift 7 x 1, bit_and-one (x / 128))

pub bit_and_address : (x : ℕ) → bit_and x 0x000F_FFFF_FFFF_F000 ≡ x / 4096 % 2 ^ 40 * 4096
unfolding ones pow2
bit_and_address x = omega (arith, bit_and-shift 12 x 0xFF_FFFF_FFFF, bit_and-ones 40 (x / 4096))

pub bit_or_offset : (c b : ℕ) → c % 4096 ≡ 0 → b < 4096 → bit_or c b ≡ c + b
unfolding pow2
bit_or_offset c b h k =
    let e : bit_or (c / 4096 * 4096) b ≡ bit_or c b = ap (λ (t : ℕ). bit_or t b) (omega arith) in
    omega (arith, e, bit_or-shift 12 (c / 4096) b k)

pub bit_or_three : (c a b : ℕ) → c % 8 ≡ 0 → a < 8 → b < 8 → bit_or (c + a) b ≡ c + bit_or a b
unfolding pow2
bit_or_three c a b h k l =
    let e : bit_or (c / 8 * 8 + a) b ≡ bit_or (c + a) b =
      ap (λ (t : ℕ). bit_or (t + a) b) (omega arith) in
    omega (arith, e, bit_or-above 3 (c / 8) a b k l)

pub bit_and_unit : (x : ℕ) → bit_and x 15 ≡ x % 16
unfolding ones pow2
bit_and_unit x = bit_and-ones 4 x
