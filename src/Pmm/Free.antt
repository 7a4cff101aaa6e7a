-- ===== src/Pmm/Free.antt =====
-- pmm_free_frame.
use batos_os.Prelude.{
  ℕ, suc, ◌+◌, ◌/◌, ◌^◌, ◌<◌, ◌≡◌, ◌⊎◌, inl, inr, ap, Bool, true, false, not, ◌&&◌, arith, ◌==◌,
  if◌then◌else◌, ltb, Bool-cases, add_u64,
}
use batos_os.Pmm.{Pmm, bitmap_clear, bitmap_test, is_used, is_aligned, in_bitmap, free_frame}
use batos_os.Pmm.Frames.{used-bitmap_clear, bitmap_clear-AreBytes}
use batos_os.Pmm.Count.{free_below, free_below_le, Takes, Takes-below, given-Takes, IsValid}

-- What pmm_free_frame frees: a page of a frame in use below the total, other than frame 0 and
-- those of the bitmap.
abbrev pub frees : Pmm → ℕ → Bool
frees p a =
    not (a == 0)
    && is_aligned a
    && ltb (a / 4096) p.total_frames
    && is_used p (a / 4096)
    && not (in_bitmap p (a / 4096))

abbrev pub freed : Pmm → ℕ → Pmm
freed p f = record (bitmap_clear p f) { free_frames = add_u64 p.free_frames 1 }

module _ {extra : ℕ} (p : Pmm) (v : IsValid extra p) (a : ℕ) where
  pub free_yes : frees p a ≡ true → free_frame p a ≡ freed p (a / 4096)
  unfolding free_frame bitmap_clear
  free_yes h = ground (arith, v.mapped)

  pub free_no : frees p a ≡ false → free_frame p a ≡ p
  unfolding free_frame
  free_no h = ground (arith, v.mapped)

module _ {extra : ℕ} (p : Pmm) (v : IsValid extra p) (f : ℕ) (pos : 0 < f) (lt : f < p.total_frames)
    (used : is_used p f ≡ true) (outside : in_bitmap p f ≡ false) where
  freed_used : (g : ℕ) → is_used (freed p f) g ≡ (if f == g then false else is_used p g)
  unfolding bitmap_test
  freed_used g = used-bitmap_clear p f g v.bytes

  -- The frame that is freed could be taken again.
  freed-Takes : Takes (freed p f) f p
  freed-Takes = given-Takes p (freed p f) f used freed_used

  one_more_free : free_below (freed p f) p.total_frames ≡ suc (free_below p p.total_frames)
  one_more_free =
      Takes-below (freed p f) p f p.total_frames freed-Takes lt (ground (arith, freed_used f))

  no_overflow : p.free_frames + 1 < 2 ^ 64
  no_overflow = omega (arith, v.counted, v.extra_le, v.total_le, free_below_le p p.total_frames)

  freed-IsValid : IsValid extra (freed p f)
  unfolding bitmap_clear
  freed-IsValid = record {
    mapped = v.mapped;
    bytes = bitmap_clear-AreBytes p f v.bytes;
    zero_used = ground (arith, freed_used 0, v.zero_used);
    reserved = λ g i. ground (arith, freed_used g, v.reserved g i, ap (in_bitmap p));
    total_le = v.total_le;
    extra_le = v.extra_le;
    counted = omega (arith, v.counted, one_more_free, no_overflow);
  }

-- What pmm_free_frame has done when it frees the page at `a`.
pub record Freed (extra : ℕ) (p : Pmm) (a : ℕ) (q : Pmm) : Type 0 where
  pub clears : (g : ℕ) → is_used q g ≡ (if a / 4096 == g then false else is_used p g)
  pub one_more : q.free_frames ≡ suc p.free_frames
  pub valid : IsValid extra q

freed-Freed :
    {extra : ℕ} (p : Pmm)
    → IsValid extra p
    → (a : ℕ) → frees p a ≡ true
    → Freed extra p a (freed p (a / 4096))
freed-Freed {extra} p v a h =
    let pos : 0 < a / 4096 = ground arith in
    let lt : a / 4096 < p.total_frames = ground arith in
    let used : is_used p (a / 4096) ≡ true = ground arith in
    let outside : in_bitmap p (a / 4096) ≡ false = ground arith in
    record {
      clears = freed_used p v (a / 4096) pos lt used outside;
      one_more = omega (arith, no_overflow p v (a / 4096) pos lt used outside);
      valid = freed-IsValid p v (a / 4096) pos lt used outside;
    }

-- In a valid allocator, pmm_free_frame marks free the frame of the page it is given and counts it,
-- if the frame is in use, handed out or only reserved, and neither frame 0 nor one of the bitmap,
-- and changes no other; it ignores every other address.
pub free_frees :
    {extra : ℕ} {p : Pmm} (a : ℕ)
    → IsValid extra p
    → ((frees p a ≡ true) × Freed extra p a (free_frame p a))
      ⊎ ((frees p a ≡ false) × (free_frame p a ≡ p))
free_frees {p = p} a v = elim (Bool-cases (frees p a)) [
  | inl holds ↦ inl (holds, rw (free_yes p v a holds) (freed-Freed p v a holds))
  | inr fails ↦ inr (fails, free_no p v a fails)
]
