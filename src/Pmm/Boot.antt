-- ===== src/Pmm/Boot.antt =====
-- pmm_init over Limine's memory map.
use batos_os.Prelude.{
  ℕ, ◌+◌, ◌-◌, ◌/◌, ◌^◌, ◌≤◌, ◌<◌, ◌≡◌, inl, inr, refl, ◌∙◌, Bool, true, false, not, ◌&&◌, ◌||◌,
  arith, if◌then◌else◌, ltb, leb, Bool-cases, add_u64, List, [], ◌∷◌,
}
use batos_os.Pmm.{
  Pmm, Entry, is_usable, first_byte, end_byte, is_used, bitmap_clear_range, highest_address,
  free_entry, free_usable,
}
use batos_os.Pmm.Ranges.{SameLayout, Counted, bitmap_clear_range-Ranged}

-- No entry ends beyond `top`, which leaves a page below 2^64.
abbrev pub EndsBy : ℕ → List Entry → Type 0
EndsBy top [] = Unit {0}
EndsBy top (e ∷ es) = (e.base + e.length ≤ top) × EndsBy top es

-- Whether a frame lies in the whole pages of a usable entry.
abbrev pub in_entry : Entry → ℕ → Bool
in_entry e g = is_usable e && leb (first_byte e / 4096) g && ltb g (end_byte e / 4096)

unfoldable pub in_usable : List Entry → ℕ → Bool
in_usable [] g = false
in_usable (e ∷ es) g = in_entry e g || in_usable es g

highest_address_le : (es : List Entry) (h : ℕ) → h ≤ highest_address es h
unfolding highest_address
highest_address_le [] h = omega arith
highest_address_le (e ∷ es) h =
    ground (arith, highest_address_le es (add_u64 e.base e.length), highest_address_le es h)

pub highest_address-EndsBy :
    (es : List Entry) (h top : ℕ)
    → EndsBy top es
    → top + 4096 < 2 ^ 64
    → EndsBy (highest_address es h) es
unfolding highest_address
highest_address-EndsBy [] h top b lt = tt
highest_address-EndsBy (e ∷ es) h top b lt =
    let h' = if ltb h (add_u64 e.base e.length) then add_u64 e.base e.length else h in
    (ground (arith, highest_address_le es h'), highest_address-EndsBy es h' top b.1 lt)

pub highest_address_lt :
    (es : List Entry) (h top : ℕ) → EndsBy top es → h ≤ top → highest_address es h ≤ top
unfolding highest_address
highest_address_lt [] h top b le = le
highest_address_lt (e ∷ es) h top b le = ground (
  arith,
  highest_address_lt es h top b.1 le,
  highest_address_lt es (add_u64 e.base e.length) top b.1 (omega (arith, b.0)),
)

-- The frames of the entries are below the total.
entry_below :
    (e : Entry) (top : ℕ)
    → e.base + e.length ≤ top
    → top + 4096 < 2 ^ 64
    → end_byte e / 4096 ≤ (top + 4095) / 4096
entry_below e top le lt = omega arith

pub usable_below :
    (es : List Entry) (top g : ℕ)
    → EndsBy top es
    → top + 4096 < 2 ^ 64
    → in_usable es g ≡ true
    → g < (top + 4095) / 4096
unfolding in_usable
usable_below [] top g b lt h = ground arith
usable_below (e ∷ es) top g b lt h =
    ground (arith, entry_below e top b.0 lt, usable_below es top g b.1 lt)

pub self-SameLayout : (p : Pmm) → SameLayout p p
self-SameLayout p = record {
  frame_bitmap = refl;
  bitmap_physical = refl;
  bitmap_size = refl;
  total_frames = refl;
}

pub SameLayout-trans : {p q r : Pmm} → SameLayout p q → SameLayout q r → SameLayout p r
SameLayout-trans a b = record {
  frame_bitmap = b.frame_bitmap ∙ a.frame_bitmap;
  bitmap_physical = b.bitmap_physical ∙ a.bitmap_physical;
  bitmap_size = b.bitmap_size ∙ a.bitmap_size;
  total_frames = b.total_frames ∙ a.total_frames;
}

-- That `q` is `p` with the frames of a set free.
pub record Frees (p : Pmm) (set : ℕ → Bool) (q : Pmm) : Type 0 where
  pub counted : Counted 0 q
  pub layout : SameLayout p q
  pub used : (g : ℕ) → is_used q g ≡ (if set g then false else is_used p g)

-- Whether an entry has a whole page.
abbrev has_page : Entry → Bool
has_page e = is_usable e && not (leb (end_byte e) (first_byte e))

free_entry_page :
    (p : Pmm) (e : Entry)
    → has_page e ≡ true
    → free_entry p e
      ≡ bitmap_clear_range p (first_byte e / 4096) ((end_byte e - first_byte e) / 4096)
unfolding free_entry
free_entry_page p e h = ground arith

free_entry_none : (p : Pmm) (e : Entry) → has_page e ≡ false → free_entry p e ≡ p
unfolding free_entry
free_entry_none p e h = ground arith

free_entry-Frees :
    (p : Pmm) (e : Entry)
    → Counted 0 p
    → end_byte e / 4096 ≤ p.total_frames
    → Frees p (in_entry e) (free_entry p e)
free_entry-Frees p e c le = elim (Bool-cases (has_page e)) [
  | inl page ↦
      let (c', r) =
        bitmap_clear_range-Ranged p (first_byte e / 4096) ((end_byte e - first_byte e) / 4096) c
          (ground arith) in
      rw (free_entry_page p e page)
        (record { counted = c'; layout = r.layout; used = λ g. r.used g ∙ ground arith })
  | inr empty ↦
      rw (free_entry_none p e empty)
        (record { counted = c; layout = self-SameLayout p; used = λ g. ground arith })
]

-- The loop over the map frees the usable frames.
pub free_usable-Frees :
    (p : Pmm) (es : List Entry) (top : ℕ)
    → Counted 0 p
    → EndsBy top es
    → top + 4096 < 2 ^ 64
    → (top + 4095) / 4096 ≤ p.total_frames
    → Frees p (in_usable es) (free_usable p es)
unfolding free_usable in_usable
free_usable-Frees p [] top c b lt le = record {
  counted = c;
  layout = self-SameLayout p;
  used = λ g. refl;
}
free_usable-Frees p (e ∷ es) top c b lt le =
    let f = free_entry-Frees p e c (omega (arith, entry_below e top b.0 lt)) in
    let r =
      free_usable-Frees (free_entry p e) es top f.counted b.1 lt (rw f.layout.total_frames le) in
    record {
      counted = r.counted;
      layout = SameLayout-trans f.layout r.layout;
      used = λ g. ground (arith, r.used g, f.used g);
    }
