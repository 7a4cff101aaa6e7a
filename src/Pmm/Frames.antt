-- ===== src/Pmm/Frames.antt =====
-- The bitmap as a set of frames in use.
use batos_os.Prelude.{
  ℕ, ◌/◌, ◌%◌, ◌<◌, ◌≡◌, true, false, arith, ◌==◌, if◌then◌else◌, Mem, store, fun_ext,
}
use batos_os.Pmm.{Pmm, bitmap_set, bitmap_clear, bitmap_test, is_used}
use batos_os.Pmm.Bits.{bit_set, bit_clear, bit_restore, bit_pos}

-- The bitmap's memory holds bytes.
abbrev pub AreBytes : Mem ℕ → Type 0
AreBytes bytes = (i : ℕ) → bytes i < 256

-- Two frames are the same where their byte and their bit are.
same_frame : (f g : ℕ) → f / 8 ≡ g / 8 → f % 8 ≡ g % 8 → f ≡ g
same_frame f g d m = omega arith

pub used-bitmap_set :
    (p : Pmm) (f g : ℕ)
    → AreBytes p.bytes
    → is_used (bitmap_set p f) g ≡ (if f == g then true else is_used p g)
unfolding bitmap_set bitmap_test store
used-bitmap_set p f g h = ground (
  arith,
  bit_set (p.bytes (f / 8)) (f % 8) (g % 8) (h (f / 8)) (omega arith) (omega arith),
  bit_pos (f % 8) (omega arith),
  same_frame f g,
)

pub used-bitmap_clear :
    (p : Pmm) (f g : ℕ)
    → AreBytes p.bytes
    → is_used (bitmap_clear p f) g ≡ (if f == g then false else is_used p g)
unfolding bitmap_clear bitmap_test store
used-bitmap_clear p f g h = ground (
  arith,
  bit_clear (p.bytes (f / 8)) (f % 8) (g % 8) (h (f / 8)) (omega arith) (omega arith),
  same_frame f g,
)

pub bitmap_set-AreBytes : (p : Pmm) (f : ℕ) → AreBytes p.bytes → AreBytes (bitmap_set p f).bytes
unfolding bitmap_set store
bitmap_set-AreBytes p f h i =
    ground (arith, h i, bit_set (p.bytes (f / 8)) (f % 8) 0 (h (f / 8)) (omega arith) (omega arith))

pub bitmap_clear-AreBytes : (p : Pmm) (f : ℕ) → AreBytes p.bytes → AreBytes (bitmap_clear p f).bytes
unfolding bitmap_clear store
bitmap_clear-AreBytes p f h i =
    ground
      (arith, h i, bit_clear (p.bytes (f / 8)) (f % 8) 0 (h (f / 8)) (omega arith) (omega arith))

-- A free frame that is taken and given back leaves the bitmap as it was, byte for byte.
pub clear-set :
    (p : Pmm) (f : ℕ)
    → AreBytes p.bytes
    → is_used p f ≡ false
    → (bitmap_clear (bitmap_set p f) f).bytes ≡ p.bytes
unfolding bitmap_set bitmap_clear bitmap_test store
clear-set p f h free =
    fun_ext λ i. ground (arith, bit_restore (p.bytes (f / 8)) (f % 8) (h (f / 8)) (omega arith))
