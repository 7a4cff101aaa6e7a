-- ===== src/Pmm/Covers.antt =====
-- pmm_is_physical_range_valid.
use batos_os.Prelude.{
  ℕ, ◌+◌, ◌^◌, ◌≤◌, ◌<◌, ◌≡◌, ◌≢◌, ◌⊎◌, ◌↔◌, inl, inr, refl, sym, ◌∙◌, true, ◌&&◌, arith, ltb, leb,
  Bool-cases, List, [], ◌∷◌, Option, none, some,
}
use batos_os.Pmm.{Entry, in_one_entry, is_physical_range_valid}

abbrev pub IsListed : Option Entry → List (Option Entry) → Type 0
IsListed x [] = ⊥
IsListed x (y ∷ ys) = (x ≡ y) ⊎ IsListed x ys

-- The lengths are 64-bit words.
abbrev pub AreWords : List (Option Entry) → Type 0
AreWords [] = Unit {0}
AreWords (none ∷ es) = AreWords es
AreWords (some e ∷ es) = (e.length < 2 ^ 64) × AreWords es

-- An entry that is well-formed, within 64 bits, and holds the bytes from `first` up to `last`.
abbrev pub Covers : (first last : ℕ) → Entry → Type 0
Covers first last e =
    (e.length ≢ 0) × (e.base + e.length < 2 ^ 64) × (e.base ≤ first) × (last ≤ e.base + e.length)

-- The scan stops at an entry that covers the range, and goes on at any other.
in_one_entry-cases :
    (first last : ℕ) (e : Entry) (es : List (Option Entry))
    → e.length < 2 ^ 64
    → (Covers first last e × (in_one_entry first last (some e ∷ es) ≡ true))
      ⊎ ((¬ Covers first last e)
          × (in_one_entry first last (some e ∷ es) ≡ in_one_entry first last es))
unfolding in_one_entry
in_one_entry-cases first last e es word =
    elim (Bool-cases (
      leb e.base first
      && leb last (e.base + e.length)
      && ltb 0 e.length
      && ltb (e.base + e.length) (2 ^ 64))) [
        | inl covered ↦ inl (ground arith)
        | inr open_ended ↦ inr (ground arith)
      ]

in_one_entry_sound :
    (first last : ℕ) (es : List (Option Entry))
    → AreWords es
    → in_one_entry first last es ≡ true
    → (e : Entry) × IsListed (some e) es × Covers first last e
unfolding in_one_entry
in_one_entry_sound first last [] w h = absurd (ground arith)
in_one_entry_sound first last (none ∷ es) w h =
    let (e, i, c) = in_one_entry_sound first last es w h in (e, inr i, c)
in_one_entry_sound first last (some x ∷ es) w h = elim (in_one_entry-cases first last x es w.0) [
  | inl (c, e) ↦ (x, inl refl, c)
  | inr (c, e) ↦ let (y, i, d) = in_one_entry_sound first last es w.1 (sym e ∙ h) in (y, inr i, d)
]

in_one_entry_complete :
    (first last : ℕ) (es : List (Option Entry)) (e : Entry)
    → AreWords es
    → IsListed (some e) es
    → Covers first last e
    → in_one_entry first last es ≡ true
unfolding in_one_entry
in_one_entry_complete first last [] e w i c = absurd i
in_one_entry_complete first last (none ∷ es) e w (inl same) c = ground arith
in_one_entry_complete first last (none ∷ es) e w (inr i) c =
    in_one_entry_complete first last es e w i c
in_one_entry_complete first last (some x ∷ es) e w (inl same) c =
    elim (in_one_entry-cases first last x es w.0) [
      | inl (d, found) ↦ found
      | inr (d, rest) ↦ absurd (d (ground arith))
    ]
in_one_entry_complete first last (some x ∷ es) e w (inr i) c =
    elim (in_one_entry-cases first last x es w.0) [
      | inl (d, found) ↦ found
      | inr (d, rest) ↦ rest ∙ in_one_entry_complete first last es e w.1 i c
    ]

scanned :
    (es : List (Option Entry)) (physical length : ℕ)
    → length < 2 ^ 64
    → is_physical_range_valid (some es) physical length ≡ true
    → (length ≢ 0)
      × (physical + length < 2 ^ 64)
      × (in_one_entry physical (physical + length) es ≡ true)
unfolding is_physical_range_valid
scanned es physical length lt h = ground arith

accepted :
    (es : List (Option Entry)) (physical length : ℕ)
    → length ≢ 0
    → physical + length < 2 ^ 64
    → in_one_entry physical (physical + length) es ≡ true
    → is_physical_range_valid (some es) physical length ≡ true
unfolding is_physical_range_valid
accepted es physical length ne fits found = ground arith

-- On 64-bit lengths, pmm_is_physical_range_valid is the test that the range is not empty, does not
-- wrap, and lies in one well-formed entry.
pub range_valid_iff :
    (es : List (Option Entry)) (physical length : ℕ)
    → AreWords es
    → length < 2 ^ 64
    → (is_physical_range_valid (some es) physical length ≡ true) ↔ (
        (length ≢ 0)
        × (physical + length < 2 ^ 64)
        × ((e : Entry) × IsListed (some e) es × Covers physical (physical + length) e))
range_valid_iff es physical length w lt = (to, from)
  where
    to :
        is_physical_range_valid (some es) physical length ≡ true
        → (length ≢ 0)
          × (physical + length < 2 ^ 64)
          × ((e : Entry) × IsListed (some e) es × Covers physical (physical + length) e)
    to h =
        let (ne, fits, found) = scanned es physical length lt h in
        (ne, fits, in_one_entry_sound physical (physical + length) es w found)

    from :
        (length ≢ 0)
          × (physical + length < 2 ^ 64)
          × ((e : Entry) × IsListed (some e) es × Covers physical (physical + length) e)
        → is_physical_range_valid (some es) physical length ≡ true
    from (ne, fits, (e, i, c)) =
        accepted es physical length ne fits
          (in_one_entry_complete physical (physical + length) es e w i c)
