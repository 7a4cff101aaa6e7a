-- ===== src/Pmm/Alloc.antt =====
-- pmm_alloc_frame and pmm_free_frame.
use batos_os.Prelude.{
  ℕ, zero, suc, ◌+◌, ◌-◌, ◌*◌, ◌%◌, ◌^◌, ◌≤◌, ◌<◌, ◌≡◌, ◌≢◌, ◌⊎◌, inl, inr, refl, sym, ◌∙◌, true,
  false, true≢false, arith, ◌==◌, null, Bool-cases, none, some, Option-cases,
}
use batos_os.Pmm.{
  Pmm, bitmap_set, bitmap_test, is_used, in_bitmap, first_free, one_less, alloc_frame,
}
use batos_os.Pmm.Frames.{used-bitmap_set, bitmap_set-AreBytes}
use batos_os.Pmm.Count.{free_below, Takes, Takes-below, IsValid}

-- The frame that the search finds is the lowest free one; if it finds none, none is free.
pub first_free-none :
    (p : Pmm) (frame n : ℕ)
    → first_free p frame n ≡ none
    → (g : ℕ) → frame ≤ g
    → g < frame + n
    → is_used p g ≡ true
unfolding first_free
first_free-none p frame zero e g le lt = absurd (omega arith)
first_free-none p frame (suc n) e g le lt = elim (Bool-cases (frame == g)) [
  | inl here ↦ let at : frame ≡ g = ground arith in rw (← at) (ground arith)
  | inr there ↦ first_free-none p (suc frame) n (ground arith) g (ground arith) (omega arith)
]

pub first_free-some :
    (p : Pmm) (frame n f : ℕ)
    → first_free p frame n ≡ some f
    → (frame ≤ f)
      × (f < frame + n)
      × (is_used p f ≡ false)
      × ((g : ℕ) → frame ≤ g → g < f → is_used p g ≡ true)
unfolding first_free
first_free-some p frame zero f e = ground arith
first_free-some p frame (suc n) f e = elim (Bool-cases (is_used p frame)) [
  | inl used ↦
      let (le, lt, free, below) = first_free-some p (suc frame) n f (ground arith) in
      (
        omega arith,
        omega arith,
        free,
        λ g from to. elim (Bool-cases (frame == g)) [
          | inl here ↦ let at : frame ≡ g = ground arith in rw (← at) used
          | inr there ↦ below g (ground arith) to
        ],
      )
  | inr free ↦
      let at : frame ≡ f = ground arith in
      (omega arith, omega arith, rw (← at) free, λ g from to. absurd (omega arith))
]

-- What pmm_alloc_frame has done when it hands out `frame`: the lowest free one, not frame 0 and none
-- of the bitmap's, is in use, and no other has changed.
pub record Allocated (extra : ℕ) (p : Pmm) (address : ℕ) (q : Pmm) : Type 0 where
  pub frame : ℕ
  pub at : address ≡ frame * 4096
  pub pos : 0 < frame
  pub below : frame < p.total_frames
  pub outside : in_bitmap p frame ≡ false
  pub was_free : is_used p frame ≡ false
  pub lowest : (g : ℕ) → g < frame → is_used p g ≡ true
  pub takes : Takes p frame q
  pub one_less : p.free_frames ≡ suc q.free_frames
  pub valid : IsValid extra q

module _ {extra : ℕ} (p : Pmm) (v : IsValid extra p) (f : ℕ) (lt : f < p.total_frames)
    (free : is_used p f ≡ false) where
  abbrev taken : Pmm
  taken = one_less (bitmap_set p f)

  pub taken-Takes : Takes p f taken
  unfolding bitmap_test
  taken-Takes g = used-bitmap_set p f g v.bytes

  some_free : free_below p p.total_frames ≡ suc (free_below taken p.total_frames)
  some_free = Takes-below p taken f p.total_frames taken-Takes lt free

  pub one_taken : p.free_frames ≡ suc taken.free_frames
  unfolding bitmap_set
  one_taken = omega (arith, v.counted, some_free)

  pub taken-IsValid : IsValid extra taken
  unfolding bitmap_set
  taken-IsValid = record {
    mapped = v.mapped;
    bytes = bitmap_set-AreBytes p f v.bytes;
    zero_used = ground (arith, taken-Takes 0, v.zero_used);
    reserved = λ g i. ground (arith, taken-Takes g, v.reserved g i);
    total_le = v.total_le;
    extra_le = v.extra_le;
    counted = omega (arith, v.counted, some_free);
  }

  pub free-outside : in_bitmap p f ≡ false
  free-outside = elim (Bool-cases (in_bitmap p f)) [
    | inl inside ↦ absurd (true≢false (sym (v.reserved f inside) ∙ free))
    | inr outside ↦ outside
  ]

  pub page_fits : f * 4096 % 2 ^ 64 ≡ f * 4096
  page_fits = omega (arith, v.total_le)

  pub taken-Allocated :
      0 < f
      → ((g : ℕ) → 1 ≤ g → g < f → is_used p g ≡ true)
      → Allocated extra p (f * 4096 % 2 ^ 64) taken
  taken-Allocated pos below = record {
    frame = f;
    at = page_fits;
    pos = pos;
    below = lt;
    outside = free-outside;
    was_free = free;
    lowest = λ g lt. elim (Bool-cases (g == 0)) [
      | inl at_zero ↦ let e : g ≡ 0 = ground arith in rw e v.zero_used
      | inr above ↦ below g (ground arith) lt
    ];
    takes = taken-Takes;
    one_less = one_taken;
    valid = taken-IsValid;
  }

pub alloc_none :
    (p : Pmm)
    → p.frame_bitmap ≢ null
    → first_free p 1 (p.total_frames - 1) ≡ none
    → alloc_frame p ≡ (0, p)
unfolding alloc_frame
alloc_none p mapped e = ground (arith, mapped, e)

pub alloc_some :
    (p : Pmm) (f : ℕ)
    → p.frame_bitmap ≢ null
    → first_free p 1 (p.total_frames - 1) ≡ some f
    → alloc_frame p ≡ (f * 4096 % 2 ^ 64, one_less (bitmap_set p f))
unfolding alloc_frame
alloc_some p f mapped e = ground (arith, mapped, e)

all_used :
    (p : Pmm)
    → is_used p 0 ≡ true
    → first_free p 1 (p.total_frames - 1) ≡ none
    → (g : ℕ) → g < p.total_frames
    → is_used p g ≡ true
all_used p z e zero lt = z
all_used p z e (suc g) lt =
    first_free-none p 1 (p.total_frames - 1) e (suc g) (omega arith) (omega arith)

-- In a valid allocator, pmm_alloc_frame hands out the lowest free frame, which is not 0 and not
-- one of the bitmap, marks and counts it, and leaves every other frame as it was; or it returns 0
-- and changes nothing, and then no frame is free.
pub alloc_allocates :
    {extra : ℕ} {p : Pmm}
    → IsValid extra p
    → let (a, q) = alloc_frame p in
      Allocated extra p a q
      ⊎ ((a ≡ 0) × (q ≡ p) × ((g : ℕ) → g < p.total_frames → is_used p g ≡ true))
alloc_allocates {extra} {p} v = elim (Option-cases (first_free p 1 (p.total_frames - 1))) [
  | inl e ↦ rw (alloc_none p v.mapped e) (inr (refl, refl, all_used p v.zero_used e))
  | inr (f, e) ↦
      let (pos, lt, free, below) = first_free-some p 1 (p.total_frames - 1) f e in
      rw (alloc_some p f v.mapped e) (inl (taken-Allocated p v f (omega arith) free pos below))
]
