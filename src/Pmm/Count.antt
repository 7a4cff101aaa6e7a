-- ===== src/Pmm/Count.antt =====
-- The free frames below a bound, counted, and the count that pmm.c keeps.
use batos_os.Prelude.{
  ℕ, zero, suc, ◌+◌, ◌^◌, ◌≤◌, ◌<◌, ◌≡◌, ◌≢◌, inl, inr, refl, ap, true, false, arith, ◌==◌,
  if◌then◌else◌, null, Bool-cases,
}
use batos_os.Pmm.{Pmm, is_used, in_bitmap}
use batos_os.Pmm.Frames.{AreBytes}

unfoldable pub free_below : Pmm → ℕ → ℕ
free_below p zero = 0
free_below p (suc n) = if is_used p n then free_below p n else suc (free_below p n)

pub free_below_le : (p : Pmm) (n : ℕ) → free_below p n ≤ n
unfolding free_below
free_below_le p zero = omega arith
free_below_le p (suc n) = ground (arith, free_below_le p n)

-- That `q` has the frames in use of `p`, and `f`.
abbrev pub Takes : Pmm → ℕ → Pmm → Type 0
Takes p f q = (g : ℕ) → is_used q g ≡ (if f == g then true else is_used p g)

Takes-above : (p q : Pmm) (f n : ℕ) → Takes p f q → n ≤ f → free_below q n ≡ free_below p n
unfolding free_below
Takes-above p q f zero t h = refl
Takes-above p q f (suc n) t h = ground (arith, t n, Takes-above p q f n t (omega arith))

pub Takes-below :
    (p q : Pmm) (f n : ℕ)
    → Takes p f q
    → f < n
    → is_used p f ≡ false
    → free_below p n ≡ suc (free_below q n)
unfolding free_below
Takes-below p q f zero t h free = absurd (omega arith)
Takes-below p q f (suc n) t h free = elim (Bool-cases (f == n)) [
  | inl here ↦
      let e : f ≡ n = ground arith in
      ground (arith, t n, Takes-above p q f n t (omega arith), e, free, ap (is_used p) e)
  | inr there ↦ ground (arith, t n, Takes-below p q f n t (ground arith) free)
]

-- A frame that is given back could be taken again.
pub given-Takes :
    (p q : Pmm) (f : ℕ)
    → is_used p f ≡ true
    → ((g : ℕ) → is_used q g ≡ (if f == g then false else is_used p g))
    → Takes q f p
given-Takes p q f used given g = elim (Bool-cases (f == g)) [
  | inl here ↦ let e : f ≡ g = ground arith in ground (arith, ap (is_used p) e, used)
  | inr there ↦ ground (arith, given g)
]

-- `extra` is what pmm.c counts as free beyond the frames that are.
pub record IsValid (extra : ℕ) (p : Pmm) : Type 0 where
  pub mapped : p.frame_bitmap ≢ null
  pub bytes : AreBytes p.bytes
  pub zero_used : is_used p 0 ≡ true
  pub reserved : (f : ℕ) → in_bitmap p f ≡ true → is_used p f ≡ true
  pub total_le : p.total_frames ≤ 2 ^ 52
  pub extra_le : extra ≤ 2 ^ 52
  pub counted : p.free_frames ≡ free_below p p.total_frames + extra
