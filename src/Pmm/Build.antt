-- ===== src/Pmm/Build.antt =====
-- The bitmap that pmm_init builds: every frame in use, then the usable ones free, then its own and
-- frame 0 in use.
use batos_os.Prelude.{
  ℕ, zero, suc, ◌+◌, ◌-◌, ◌/◌, ◌%◌, ◌^◌, ◌≤◌, ◌<◌, ◌≡◌, ◌≢◌, ◌⊎◌, inl, inr, refl, sym, ap₂, ◌∙◌,
  true, false, not, ◌&&◌, arith, ◌==◌, if◌then◌else◌, ltb, leb, null, Bool-cases, List, [], ◌∷◌,
  Mem, store,
}
use batos_os.Pmm.{
  Pmm, Entry, is_usable, first_byte, end_byte, align_up, bitmap_set, bitmap_test, is_used,
  bitmap_set_range, find_bitmap_location, fill, free_usable, reserve_zero, build, one_less,
  in_bitmap,
}
use batos_os.Pmm.Bits.{full_byte, bit_pos}
use batos_os.Pmm.Frames.{AreBytes, used-bitmap_set, bitmap_set-AreBytes}
use batos_os.Pmm.Count.{free_below, Takes-below, IsValid}
use batos_os.Pmm.Ranges.{in_range, SameLayout, Counted, Ranged, bitmap_set_range-Ranged}
use batos_os.Pmm.Boot.{
  EndsBy, in_usable, Frees, free_usable-Frees, usable_below, SameLayout-trans, self-SameLayout,
}

fill_lem : (m : Mem ℕ) (n i : ℕ) → fill m n i ≡ (if ltb i n then 255 else m i)
unfolding fill store
fill_lem m zero i = ground arith
fill_lem m (suc n) i = ground (arith, fill_lem m n i)

abbrev filled : Pmm → Pmm
filled p = record p { bytes = fill p.bytes p.bitmap_size; free_frames = 0 }

filled-AreBytes : (p : Pmm) → AreBytes p.bytes → AreBytes (filled p).bytes
filled-AreBytes p h i = ground (arith, fill_lem p.bytes p.bitmap_size i, h i)

filled-used : (p : Pmm) (g : ℕ) → g / 8 < p.bitmap_size → is_used (filled p) g ≡ true
unfolding bitmap_test
filled-used p g h = ground (
  arith,
  fill_lem p.bytes p.bitmap_size (g / 8),
  full_byte (g % 8) (omega arith),
  bit_pos (g % 8) (omega arith),
)

free_below_none : (p : Pmm) (n : ℕ) → ((g : ℕ) → g < n → is_used p g ≡ true) → free_below p n ≡ 0
unfolding free_below
free_below_none p zero h = refl
free_below_none p (suc n) h = ground (arith, h n, free_below_none p n (λ g lt. h g (omega arith)))

filled-Counted :
    (p : Pmm)
    → AreBytes p.bytes
    → p.total_frames ≤ 2 ^ 52
    → p.bitmap_size ≡ (p.total_frames + 7) / 8
    → Counted 0 (filled p)
filled-Counted p h le size = record {
  bytes = filled-AreBytes p h;
  total_le = le;
  counted = omega (
    arith,
    free_below_none (filled p) p.total_frames λ g lt. filled-used p g (omega (arith, size)),
  );
}

-- The place that pmm_init finds for the bitmap: page-aligned, and in usable frames.
location_lem :
    (es : List Entry) (required : ℕ)
    → (loc : ℕ) → find_bitmap_location es required ≡ loc
    → loc ≢ 0
    → (loc % 4096 ≡ 0)
      × ((g : ℕ) → in_range (loc / 4096) (required / 4096) g ≡ true → in_usable es g ≡ true)
unfolding find_bitmap_location in_usable
location_lem [] required loc e ne = absurd (ne (sym e))
location_lem (x ∷ es) required loc e ne =
    elim (Bool-cases (
      is_usable x
      && not (leb (end_byte x) (first_byte x))
      && leb required (end_byte x - first_byte x))) [
        | inl here ↦
            let at : first_byte x ≡ loc = ground arith in
            rw (← at) (omega arith, λ g i. ground arith)
        | inr there ↦
            let r = location_lem es required loc (ground arith) ne in
            (r.0, λ g i. ground (arith, r.1 g i))
      ]

-- Frame 0 is in use in the end, and counted as such.
record Reserves (extra : ℕ) (p q : Pmm) : Type 0 where
  counted : Counted extra q
  layout : SameLayout p q
  zero_used : is_used q 0 ≡ true
  keeps : (g : ℕ) → is_used p g ≡ true → is_used q g ≡ true

reserve_zero-cases :
    (p : Pmm)
    → 0 < p.total_frames
    → ((is_used p 0 ≡ true) × (reserve_zero p ≡ p))
      ⊎ ((is_used p 0 ≡ false) × (reserve_zero p ≡ one_less (bitmap_set p 0)))
unfolding reserve_zero
reserve_zero-cases p pos = elim (Bool-cases (is_used p 0)) [
  | inl used ↦ inl (used, ground (arith, used))
  | inr free ↦ inr (free, ground (arith, free, pos))
]

module _ {extra : ℕ} (p : Pmm) (c : Counted extra p) (pos : 0 < p.total_frames) where
  taken_zero-used :
      (g : ℕ) → is_used (one_less (bitmap_set p 0)) g ≡ (if 0 == g then true else is_used p g)
  unfolding bitmap_test
  taken_zero-used g = used-bitmap_set p 0 g c.bytes

  taken_zero : is_used p 0 ≡ false → Reserves extra p (one_less (bitmap_set p 0))
  unfolding bitmap_set
  taken_zero free = record {
    counted = record {
      bytes = bitmap_set-AreBytes p 0 c.bytes;
      total_le = c.total_le;
      counted = omega (
        arith,
        c.counted,
        Takes-below p (one_less (bitmap_set p 0)) 0 p.total_frames taken_zero-used pos free,
      );
    };
    layout = record {
      frame_bitmap = refl;
      bitmap_physical = refl;
      bitmap_size = refl;
      total_frames = refl;
    };
    zero_used = taken_zero-used 0;
    keeps = λ g u. ground (arith, taken_zero-used g, u);
  }

  reserve_zero-Reserves : Reserves extra p (reserve_zero p)
  reserve_zero-Reserves = elim (reserve_zero-cases p pos) [
    | inl (used, e) ↦
        rw e
          (record { counted = c; layout = self-SameLayout p; zero_used = used; keeps = λ g u. u })
    | inr (free, e) ↦ rw e (taken_zero free)
  ]

Counted-of_zero : {extra : ℕ} {p : Pmm} → Counted (0 + extra) p → Counted extra p
Counted-of_zero c = record {
  bytes = c.bytes;
  total_le = c.total_le;
  counted = omega (arith, c.counted);
}

-- The number of frames that the bitmap itself takes.
abbrev pub bitmap_frames : Pmm → ℕ
bitmap_frames p = align_up p.bitmap_size / 4096

-- What pmm_init has found out before it builds the bitmap of `p`.
pub record Placed (p : Pmm) (es : List Entry) (top : ℕ) : Type 0 where
  pub mapped : p.frame_bitmap ≢ null
  pub bytes : AreBytes p.bytes
  pub ends : EndsBy top es
  pub top_lt : top + 4096 < 2 ^ 64
  pub total : p.total_frames ≡ (top + 4095) / 4096
  pub total_pos : 0 < p.total_frames
  pub size : p.bitmap_size ≡ (p.total_frames + 7) / 8
  pub place : find_bitmap_location es (align_up p.bitmap_size) ≡ p.bitmap_physical
  pub place_pos : p.bitmap_physical ≢ 0

module _ (p : Pmm) (es : List Entry) (top : ℕ) (w : Placed p es top) where
  total_le : p.total_frames ≤ 2 ^ 52
  total_le = omega (arith, w.total, w.top_lt)

  pub some_frame : 0 < bitmap_frames p
  some_frame = omega (arith, w.size, w.total_pos, total_le)

  few_frames : bitmap_frames p ≤ 2 ^ 52
  few_frames = omega (arith, w.size, total_le)

  abbrev first : ℕ
  first = p.bitmap_physical / 4096

  in_map : (g : ℕ) → in_range first (bitmap_frames p) g ≡ true → in_usable es g ≡ true
  in_map g i =
      (location_lem es (align_up p.bitmap_size) p.bitmap_physical w.place w.place_pos).1 g i

  fits : first + bitmap_frames p ≤ p.total_frames
  fits =
      let g = first + bitmap_frames p - 1 in
      omega (
        arith,
        some_frame,
        w.total,
        usable_below es top g w.ends w.top_lt (in_map g (ground (arith, some_frame))),
      )

  abbrev freed : Pmm
  freed = free_usable (filled p) es

  freed-Frees : Frees (filled p) (in_usable es) freed
  freed-Frees =
      free_usable-Frees (filled p) es top (filled-Counted p w.bytes total_le w.size) w.ends w.top_lt
        (omega (arith, w.total))

  abbrev reserved : Pmm
  reserved = bitmap_set_range freed first (bitmap_frames p)

  reserved-Ranged :
      Counted (bitmap_frames p) reserved × Ranged true freed first (bitmap_frames p) reserved
  reserved-Ranged =
      let f = freed-Frees in
      let (c, r) =
        bitmap_set_range-Ranged freed first (bitmap_frames p) f.counted
          (rw f.layout.total_frames fits) (λ g i. rw (f.used g, in_map g i) refl) in
      (Counted-of_zero c, r)

  build_eq : build p es ≡ reserve_zero reserved
  unfolding build
  build_eq =
      let l = freed-Frees.layout in
      ap₂ (λ s n. reserve_zero (bitmap_set_range freed (s / 4096) (align_up n / 4096)))
        l.bitmap_physical l.bitmap_size

  built : Reserves (bitmap_frames p) reserved (build p es)
  built =
      let (c, r) = reserved-Ranged in
      let l = SameLayout-trans freed-Frees.layout r.layout in
      rw build_eq (reserve_zero-Reserves reserved c (rw l.total_frames w.total_pos))

  pub built-SameLayout : SameLayout (filled p) (build p es)
  built-SameLayout =
      SameLayout-trans (SameLayout-trans freed-Frees.layout reserved-Ranged.1.layout) built.layout

  built-reserved :
      (g : ℕ) → in_range first (bitmap_frames p) g ≡ true → is_used (build p es) g ≡ true
  built-reserved g i = built.keeps g (rw (reserved-Ranged.1.used g, i) refl)

  in_bitmap-build : (g : ℕ) → in_bitmap (build p es) g ≡ in_range first (bitmap_frames p) g
  in_bitmap-build g =
      let l = built-SameLayout in
      rw (l.bitmap_physical, l.bitmap_size) (ground (arith, fits, total_le))

  pub build-IsValid : IsValid (bitmap_frames p) (build p es)
  build-IsValid =
      let b = built in
      let l = built-SameLayout in
      record {
        mapped = rw l.frame_bitmap w.mapped;
        bytes = b.counted.bytes;
        zero_used = b.zero_used;
        reserved = λ g i. built-reserved g (sym (in_bitmap-build g) ∙ i);
        total_le = b.counted.total_le;
        extra_le = few_frames;
        counted = b.counted.counted;
      }
