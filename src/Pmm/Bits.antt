-- ===== src/Pmm/Bits.antt =====
-- One bit of a byte set, cleared and tested: tables of all bytes and bits, checked by evaluation.
use batos_os.Prelude.{
  ℕ, zero, suc, ◌+◌, ◌-◌, ◌*◌, ◌/◌, ◌%◌, ◌^◌, ◌<◌, ◌≡◌, ◌≢◌, refl, Bool, true, false, ◌&&◌, arith,
  ◌==◌, if◌then◌else◌, ltb, bit_and, bit_or,
}

-- Whether a test holds of every number below `n`.
all_below : (ℕ → Bool) → ℕ → Bool
all_below test zero = true
all_below test (suc n) = if test n then all_below test n else false

all_below_lem :
    (test : ℕ → Bool) (n : ℕ) → all_below test n ≡ true → (i : ℕ) → i < n → test i ≡ true
unfolding all_below
all_below_lem test zero e i h = absurd (omega arith)
all_below_lem test (suc n) e i h = ground (arith, all_below_lem test n (ground arith) i)

-- Of the byte `n / 64` and its bits `n / 8 % 8` and `n % 8`.
set_right : ℕ → Bool
set_right n =
    let b = n / 64 in
    let i = n / 8 % 8 in
    let j = n % 8 in
    (bit_and (bit_or b (2 ^ i)) (2 ^ j) == (if i == j then 2 ^ i else bit_and b (2 ^ j)))
    && ltb (bit_or b (2 ^ i)) 256

set_table : all_below set_right 16384 ≡ true
unfolding all_below set_right
set_table = refl

clear_right : ℕ → Bool
clear_right n =
    let b = n / 64 in
    let i = n / 8 % 8 in
    let j = n % 8 in
    (bit_and (bit_and b (255 - 2 ^ i)) (2 ^ j) == (if i == j then 0 else bit_and b (2 ^ j)))
    && ltb (bit_and b (255 - 2 ^ i)) 256

clear_table : all_below clear_right 16384 ≡ true
unfolding all_below clear_right
clear_table = refl

-- Of the byte `n / 8` and its bit `n % 8`: a bit that was clear is set and cleared again.
restore_right : ℕ → Bool
restore_right n =
    let b = n / 8 in
    let i = n % 8 in
    if bit_and b (2 ^ i) == 0 then bit_and (bit_or b (2 ^ i)) (255 - 2 ^ i) == b else true

restore_table : all_below restore_right 2048 ≡ true
unfolding all_below restore_right
restore_table = refl

module _ (b i j : ℕ) (hb : b < 256) (hi : i < 8) (hj : j < 8) where
  split_64 :
      ((b * 64 + i * 8 + j) / 64 ≡ b)
      × ((b * 64 + i * 8 + j) / 8 % 8 ≡ i)
      × ((b * 64 + i * 8 + j) % 8 ≡ j)
  split_64 = (omega arith, omega arith, omega arith)

  pub bit_set :
      (bit_and (bit_or b (2 ^ i)) (2 ^ j) ≡ (if i == j then 2 ^ i else bit_and b (2 ^ j)))
      × (bit_or b (2 ^ i) < 256)
  unfolding set_right
  bit_set =
      let e = split_64 in
      ground (arith, all_below_lem set_right 16384 set_table (b * 64 + i * 8 + j) (omega arith))

  pub bit_clear :
      (bit_and (bit_and b (255 - 2 ^ i)) (2 ^ j) ≡ (if i == j then 0 else bit_and b (2 ^ j)))
      × (bit_and b (255 - 2 ^ i) < 256)
  unfolding clear_right
  bit_clear =
      let e = split_64 in
      ground (arith, all_below_lem clear_right 16384 clear_table (b * 64 + i * 8 + j) (omega arith))

pub bit_restore :
    (b i : ℕ)
    → b < 256
    → i < 8
    → bit_and b (2 ^ i) ≡ 0
    → bit_and (bit_or b (2 ^ i)) (255 - 2 ^ i) ≡ b
unfolding restore_right
bit_restore b i hb hi free =
    let e : ((b * 8 + i) / 8 ≡ b) × ((b * 8 + i) % 8 ≡ i) = (omega arith, omega arith) in
    ground (arith, all_below_lem restore_right 2048 restore_table (b * 8 + i) (omega arith))

is_pos : ℕ → Bool
is_pos i = ltb 0 (2 ^ i)

pos_table : all_below is_pos 8 ≡ true
unfolding all_below is_pos
pos_table = refl

pub bit_pos : (i : ℕ) → i < 8 → 2 ^ i ≢ 0
unfolding is_pos
bit_pos i h = ground (arith, all_below_lem is_pos 8 pos_table i h)

is_full : ℕ → Bool
is_full i = bit_and 255 (2 ^ i) == 2 ^ i

full_table : all_below is_full 8 ≡ true
unfolding all_below is_full
full_table = refl

pub full_byte : (i : ℕ) → i < 8 → bit_and 255 (2 ^ i) ≡ 2 ^ i
unfolding is_full
full_byte i h = ground (arith, all_below_lem is_full 8 full_table i h)
