-- ===== src/Pmm/Ranges.antt =====
-- The loops of pmm_init over ranges of frames and over the memory map.
use batos_os.Prelude.{
  ℕ, zero, suc, ◌+◌, ◌^◌, ◌≤◌, ◌<◌, ◌≡◌, ◌⊎◌, inl, inr, refl, ap, ◌∙◌, Bool, true, false, ◌&&◌,
  arith, ◌==◌, if◌then◌else◌, ltb, leb, Bool-cases, add_u64,
}
use batos_os.Pmm.{
  Pmm, bitmap_set, bitmap_clear, bitmap_test, is_used, bitmap_set_range, clear_counted,
  bitmap_clear_range,
}
use batos_os.Pmm.Frames.{
  AreBytes, used-bitmap_set, used-bitmap_clear, bitmap_set-AreBytes, bitmap_clear-AreBytes,
}
use batos_os.Pmm.Count.{free_below, free_below_le, Takes-below, given-Takes}
use batos_os.Pmm.Free.{freed}

-- Whether a frame is one of the `n` from `s` on.
abbrev pub in_range : ℕ → ℕ → ℕ → Bool
in_range s n g = leb s g && ltb g (s + n)

-- What the two loops keep of the rest of the state.
pub record SameLayout (p q : Pmm) : Type 0 where
  pub frame_bitmap : q.frame_bitmap ≡ p.frame_bitmap
  pub bitmap_physical : q.bitmap_physical ≡ p.bitmap_physical
  pub bitmap_size : q.bitmap_size ≡ p.bitmap_size
  pub total_frames : q.total_frames ≡ p.total_frames

-- The state in the course of pmm_init: bytes, and a count that is `extra` too high.
pub record Counted (extra : ℕ) (p : Pmm) : Type 0 where
  pub bytes : AreBytes p.bytes
  pub total_le : p.total_frames ≤ 2 ^ 52
  pub counted : p.free_frames ≡ free_below p p.total_frames + extra

-- The frames of `q` are those of `p`, with the `n` from `s` on free, or in use.
pub record Ranged (to : Bool) (p : Pmm) (s n : ℕ) (q : Pmm) : Type 0 where
  pub layout : SameLayout p q
  pub used : (g : ℕ) → is_used q g ≡ (if in_range s n g then to else is_used p g)

Ranged-none : (to : Bool) (p : Pmm) (s : ℕ) → Ranged to p s 0 p
Ranged-none to p s = record {
  layout = record {
    frame_bitmap = refl;
    bitmap_physical = refl;
    bitmap_size = refl;
    total_frames = refl;
  };
  used = λ g. ground arith;
}

-- One frame, then the others.
Ranged-suc :
    {to : Bool} {p q r : Pmm} {s n : ℕ}
    → SameLayout p q
    → ((g : ℕ) → is_used q g ≡ (if s == g then to else is_used p g))
    → Ranged to q (suc s) n r
    → Ranged to p s (suc n) r
Ranged-suc l u r = record {
  layout = record {
    frame_bitmap = r.layout.frame_bitmap ∙ l.frame_bitmap;
    bitmap_physical = r.layout.bitmap_physical ∙ l.bitmap_physical;
    bitmap_size = r.layout.bitmap_size ∙ l.bitmap_size;
    total_frames = r.layout.total_frames ∙ l.total_frames;
  };
  used = λ g. r.used g ∙ ground (arith, u g);
}

clear_counted-cases :
    (p : Pmm) (f : ℕ)
    → ((is_used p f ≡ false) × (clear_counted p f ≡ p))
      ⊎ ((is_used p f ≡ true) × (clear_counted p f ≡ freed p f))
unfolding clear_counted bitmap_clear
clear_counted-cases p f = elim (Bool-cases (is_used p f)) [
  | inl used ↦ inr (used, rw used refl)
  | inr free ↦ inl (free, rw free refl)
]

module _ (p : Pmm) (f : ℕ) (c : Counted 0 p) where
  freed_used : (g : ℕ) → is_used (freed p f) g ≡ (if f == g then false else is_used p g)
  unfolding bitmap_test
  freed_used g = used-bitmap_clear p f g c.bytes

  freed-Counted : f < p.total_frames → is_used p f ≡ true → Counted 0 (freed p f)
  unfolding bitmap_clear
  freed-Counted lt used = record {
    bytes = bitmap_clear-AreBytes p f c.bytes;
    total_le = c.total_le;
    counted = omega (
      arith,
      c.counted,
      c.total_le,
      free_below_le p p.total_frames,
      Takes-below (freed p f) p f p.total_frames (given-Takes p (freed p f) f used freed_used) lt
          (ground (arith, freed_used f)),
    );
  }

  freed-SameLayout : SameLayout p (freed p f)
  unfolding bitmap_clear
  freed-SameLayout = record {
    frame_bitmap = refl;
    bitmap_physical = refl;
    bitmap_size = refl;
    total_frames = refl;
  }

  clear_counted-used :
      (g : ℕ) → is_used (clear_counted p f) g ≡ (if f == g then false else is_used p g)
  clear_counted-used g = elim (clear_counted-cases p f) [
    | inl (free, e) ↦ rw e (ground (arith, ap (is_used p), free))
    | inr (used, e) ↦ rw e (freed_used g)
  ]

  clear_counted-SameLayout : SameLayout p (clear_counted p f)
  clear_counted-SameLayout = elim (clear_counted-cases p f) [
    | inl (free, e) ↦ rw e (Ranged-none false p f).layout
    | inr (used, e) ↦ rw e freed-SameLayout
  ]

  clear_counted-Counted : f < p.total_frames → Counted 0 (clear_counted p f)
  clear_counted-Counted lt = elim (clear_counted-cases p f) [
    | inl (free, e) ↦ rw e c
    | inr (used, e) ↦ rw e (freed-Counted lt used)
  ]

-- The loop of bitmap_clear_range frees its frames, and counts those that it frees.
pub bitmap_clear_range-Ranged :
    (p : Pmm) (s n : ℕ)
    → Counted 0 p
    → s + n ≤ p.total_frames
    → Counted 0 (bitmap_clear_range p s n) × Ranged false p s n (bitmap_clear_range p s n)
unfolding bitmap_clear_range
bitmap_clear_range-Ranged p s zero c le = (c, Ranged-none false p s)
bitmap_clear_range-Ranged p s (suc n) c le =
    let next : add_u64 s 1 ≡ suc s = omega (arith, c.total_le) in
    let l = clear_counted-SameLayout p s c in
    let (c', r) =
      bitmap_clear_range-Ranged (clear_counted p s) (suc s) n
        (clear_counted-Counted p s c (omega arith)) (rw l.total_frames (omega arith)) in
    rw next (c', Ranged-suc l (clear_counted-used p s c) r)

module _ (p : Pmm) (f : ℕ) where
  set-SameLayout : SameLayout p (bitmap_set p f)
  unfolding bitmap_set
  set-SameLayout = record {
    frame_bitmap = refl;
    bitmap_physical = refl;
    bitmap_size = refl;
    total_frames = refl;
  }

  set-Counted :
      {extra : ℕ}
      → Counted extra p
      → f < p.total_frames
      → is_used p f ≡ false
      → Counted (suc extra) (bitmap_set p f)
  unfolding bitmap_set
  set-Counted c lt free = record {
    bytes = bitmap_set-AreBytes p f c.bytes;
    total_le = c.total_le;
    counted = omega (
      arith,
      c.counted,
      Takes-below p (bitmap_set p f) f p.total_frames (λ g. used-bitmap_set p f g c.bytes) lt free,
    );
  }

-- The loop of bitmap_set_range takes its frames, and does not count them.
pub bitmap_set_range-Ranged :
    {extra : ℕ} (p : Pmm) (s n : ℕ)
    → Counted extra p
    → s + n ≤ p.total_frames
    → ((g : ℕ) → in_range s n g ≡ true → is_used p g ≡ false)
    → Counted (extra + n) (bitmap_set_range p s n) × Ranged true p s n (bitmap_set_range p s n)
unfolding bitmap_set_range
bitmap_set_range-Ranged {extra} p s zero c le free =
    let e : extra + 0 ≡ extra = omega arith in (rw e c, Ranged-none true p s)
bitmap_set_range-Ranged {extra} p s (suc n) c le free =
    let next : add_u64 s 1 ≡ suc s = omega (arith, c.total_le) in
    let sum : extra + suc n ≡ suc extra + n = omega arith in
    let l = set-SameLayout p s in
    let used = λ (g : ℕ). used-bitmap_set p s g c.bytes in
    let (c', r) =
      bitmap_set_range-Ranged (bitmap_set p s) (suc s) n
        (set-Counted p s c (omega arith) (free s (ground arith))) (rw l.total_frames (omega arith))
        (λ g i. ground (arith, used g, free g)) in
    rw (next, sum) (c', Ranged-suc l used r)
