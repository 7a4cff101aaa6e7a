-- ===== src/Heap/Cells.antt =====
-- The specification of the heap: a list of cells, each with its size and whether it is used, one behind
-- the other from the arena's start, with a header before each.
use batos_os.Prelude.{
  ℕ, ◌+◌, ◌-◌, ◌%◌, ◌≤◌, ◌<◌, ◌≡◌, refl, sym, ap, ap₂, ◌∙◌, Bool, true, false, ◌&&◌, not, Option,
  none, some, List, [], ◌∷◌, arith, leb, ◌==◌, if◌then◌else◌, Ptr, Option-cases, Bool-cases, inl,
  inr, ◌⊎◌,
}

pub record Cell : Type 0 where
  pub size : ℕ
  pub used : Bool

abbrev pub free_cell : ℕ → Cell
free_cell n = record { size = n; used = false }

abbrev pub used_cell : ℕ → Cell
used_cell n = record { size = n; used = true }

-- What an Option of a list becomes with one more cell before it.
abbrev pub behind : (List Cell → List Cell) → Option (ℕ × List Cell) → Option (ℕ × List Cell)
behind f none = none
behind f (some (a, cs)) = some (a, f cs)

-- First fit: the address of the payload and the cells, when the first free cell that is large enough is
-- taken, cut in two if 64 bytes are left.
abbrev pub cut : ℕ → Cell → List Cell → List Cell
cut n c cs =
    if leb 64 (c.size - n)
    then used_cell n ∷ free_cell (c.size - n - 32) ∷ cs
    else used_cell c.size ∷ cs

unfoldable pub take : ℕ → Ptr → List Cell → Option (ℕ × List Cell)
take n p [] = none
take n p (c ∷ cs) =
    let rest = take n (p + 32 + c.size) cs in
    if not c.used && leb n c.size then some (p + 32, cut n c cs) else behind (λ ds. c ∷ ds) rest

-- A free cell takes in a free cell behind it.
unfoldable pub join : Cell → List Cell → List Cell
join c [] = c ∷ []
join c (d ∷ ds) =
    if not c.used && not d.used then free_cell (c.size + (32 + d.size)) ∷ ds else c ∷ d ∷ ds

-- The used cell whose payload is at `ptr` becomes free and joins its neighbours. Any other address
-- changes nothing.
unfoldable pub give : Ptr → Ptr → List Cell → List Cell
give ptr p [] = []
give ptr p (c ∷ cs) =
    let rest = give ptr (p + 32 + c.size) cs in
    if p + 32 == ptr
    then (if c.used then join (free_cell c.size) cs else c ∷ cs)
    else if p + 32 + c.size + 32 == ptr
    then join c rest
    else c ∷ rest

unfoldable pub used_bytes : List Cell → ℕ
used_bytes [] = 0
used_bytes (c ∷ cs) = (if c.used then c.size else 0) + used_bytes cs

unfoldable pub free_bytes : List Cell → ℕ
free_bytes [] = 0
free_bytes (c ∷ cs) = (if c.used then 0 else c.size) + free_bytes cs

-- The bytes that the cells and their headers take.
unfoldable pub extent : List Cell → ℕ
extent [] = 0
extent (c ∷ cs) = 32 + c.size + extent cs

-- Sizes are multiples of 16, and not 0.
unfoldable pub AreSized : List Cell → Type 0
AreSized [] = Unit {0}
AreSized (c ∷ cs) = ((0 < c.size) × (c.size % 16 ≡ 0)) × AreSized cs

-- No two free cells stand side by side.
abbrev pub Apart : Cell → List Cell → Type 0
Apart c [] = Unit {0}
Apart c (d ∷ ds) = (c.used ≡ true) ⊎ (d.used ≡ true)

unfoldable pub AreJoined : List Cell → Type 0
AreJoined [] = Unit {0}
AreJoined (c ∷ cs) = Apart c cs × AreJoined cs

pub join-Apart : (c : Cell) (cs : List Cell) → Apart c cs → join c cs ≡ c ∷ cs
unfolding join
join-Apart c [] h = refl
join-Apart c (d ∷ ds) h = ground arith

free_cell_same : (c : Cell) → c.used ≡ false → free_cell c.size ≡ c
free_cell_same c e = ap (λ (b : Bool). record { size = c.size; used = b }) (sym e)

-- The first cell is taken and given back.
join_two :
    (n k : ℕ) (cs : List Cell)
    → join (free_cell n) (free_cell k ∷ cs) ≡ free_cell (n + (32 + k)) ∷ cs
unfolding join
join_two n k cs = refl

give_behind :
    (a p : ℕ) (c : Cell) (es cs : List Cell)
    → give a (p + 32 + c.size) es ≡ cs
    → p + 32 < a
    → Apart c cs
    → give a p (c ∷ es) ≡ c ∷ cs
unfolding give
give_behind a p c es cs e lt apart =
    ground (arith, e, ap (join c) e, ap (λ ds. c ∷ ds) e, join-Apart c cs apart)

give-cut :
    (n : ℕ) (p : Ptr) (c : Cell) (cs : List Cell)
    → c.used ≡ false
    → n ≤ c.size
    → Apart c cs
    → give (p + 32) p (cut n c cs) ≡ c ∷ cs
unfolding give
give-cut n p c cs unused le apart = elim (Bool-cases (leb 64 (c.size - n))) [
  | inl room ↦
      let whole : n + (32 + (c.size - n - 32)) ≡ c.size = ground arith in
      let joined : join (free_cell n) (free_cell (c.size - n - 32) ∷ cs) ≡ c ∷ cs =
        join_two n (c.size - n - 32) cs
        ∙ ap (λ (k : ℕ). free_cell k ∷ cs) whole
        ∙ ap (λ (d : Cell). d ∷ cs) (free_cell_same c unused) in
      ground (arith, room, joined)
  | inr whole ↦
      let same : join (free_cell c.size) cs ≡ c ∷ cs =
        ap (λ (d : Cell). join d cs) (free_cell_same c unused) ∙ join-Apart c cs apart in
      ground (arith, whole, same)
]

-- A taken cell given back leaves the cells as they were, where no two free ones stand side by side.
pub give-take :
    (n : ℕ) (p : Ptr) (cs : List Cell) (a : ℕ) (ds : List Cell)
    → AreJoined cs
    → take n p cs ≡ some (a, ds)
    → (give a p ds ≡ cs) × (p + 32 ≤ a)
unfolding take AreJoined
give-take n p [] a ds j t = ground arith
give-take n p (c ∷ cs) a ds j t = elim (Bool-cases (not c.used && leb n c.size)) [
  | inl here ↦
      let at : p + 32 ≡ a = ground arith in
      let eq : cut n c cs ≡ ds = ground arith in
      let back = give-cut n p c cs (ground arith) (ground arith) j.0 in
      (ap₂ (λ (x : ℕ) (xs : List Cell). give x p xs) (sym at) (sym eq) ∙ back, omega (arith, at))
  | inr further ↦ elim (Option-cases (take n (p + 32 + c.size) cs)) [
    | inl none_there ↦ absurd (ground arith)
    | inr ((b, es), found) ↦
        let at : b ≡ a = ground (arith) in
        let eq : c ∷ es ≡ ds = ground (arith) in
        let (back, le) = give-take n (p + 32 + c.size) cs b es j.1 found in
        (
          ap₂ (λ (x : ℕ) (xs : List Cell). give x p xs) (sym at) (sym eq)
              ∙ give_behind b p c es cs back (omega arith) j.0,
          omega (arith, at),
        )
  ]
]
