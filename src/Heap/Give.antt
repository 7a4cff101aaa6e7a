-- ===== src/Heap/Give.antt =====
-- kfree at a block of a chain, and its search for the block.
use batos_os.Prelude.{
  ℕ, ◌+◌, ◌≤◌, ◌<◌, ◌≡◌, refl, sym, ap, ◌∙◌, Bool, true, false, not, List, [], ◌∷◌, arith,
  if◌then◌else◌, Ptr, null, Mem, Bool-cases, inl, inr,
}
use batos_os.Heap.{Block, absorb, merge_next, merge_previous, free_at}
use batos_os.Heap.Cells.{Cell, free_cell, join, give, used_bytes, free_bytes, extent}
use batos_os.Heap.Chain.{link, header, after, Chain, Chain_agree}
use batos_os.Heap.Absorb.{absorb_lem}
use batos_os.Heap.Free.{unmarked, Freed, free_first, chain_parts, chain_cons, free_state}

-- The three steps of kfree on the headers.
abbrev pub two_steps : Mem Block → Ptr → Mem Block
two_steps m b = merge_next (unmarked m b) b

abbrev pub released : Mem Block → Ptr → Mem Block
released m b = merge_previous (two_steps m b) b

-- What kfree has done to the headers when it frees the block `b`.
pub record Given (m : Mem Block) (previous p : Ptr) (cs : List Cell) (ptr b : Ptr) (es : List Cell)
    : Type 0 where
  pub spec : give ptr p cs ≡ es
  pub chain : Chain (released m b) previous p es
  pub below : (a : Ptr) → a < p → released m b a ≡ m a
  pub links : (x : Ptr) → link x es ≡ link x cs
  pub used : used_bytes es + (m b).size ≡ used_bytes cs
  pub free :
      free_bytes es
      ≡ free_bytes cs
        + (m b).size
        + (if free_at (unmarked m b) (unmarked m b b).next then 32 else 0)
        + (if free_at (two_steps m b) (two_steps m b b).previous then 32 else 0)

-- Where the block before is not there or is used, the third step does nothing.
stays :
    (m : Mem Block) (b previous : Ptr)
    → (two_steps m b b).previous ≡ previous
    → free_at (two_steps m b) previous ≡ false
    → released m b ≡ two_steps m b
unfolding merge_previous
stays m b previous back no_free =
    ap
      (λ (x : Bool).
        if x then absorb (two_steps m b) (two_steps m b b).previous b else two_steps m b)
      (ap (free_at (two_steps m b)) back ∙ no_free)

join_shape :
    (n : ℕ) (cs : List Cell)
    → (e : Cell) × (es : List Cell) × (join (free_cell n) cs ≡ e ∷ es)
      × (e.used ≡ false)
      × (e.size ≤ n + extent cs)
unfolding join extent
join_shape n [] = (free_cell n, [], refl, refl, omega arith)
join_shape n (d ∷ ds) = elim (Bool-cases d.used) [
  | inl busy ↦ (free_cell n, d ∷ ds, ground (arith, busy), refl, omega arith)
  | inr idle ↦ (free_cell (n + (32 + d.size)), ds, ground (arith, idle), refl, omega arith)
]

link-join : (n : ℕ) (cs : List Cell) (x : Ptr) → link x (join (free_cell n) cs) ≡ x
link-join n cs x = let (e, es, at, idle, le) = join_shape n cs in ap (link x) at

-- The first block of the arena, before which there is none.
pub give_first :
    (m : Mem Block) (p : Ptr) (c : Cell) (cs : List Cell)
    → 0 < p
    → extent (c ∷ cs) ≤ 65536
    → c.used ≡ true
    → Chain m null p (c ∷ cs)
    → (es : List Cell) × Given m null p (c ∷ cs) (p + 32) p es
unfolding give used_bytes free_bytes
give_first m p c cs pos small busy ch =
    let (es, f) = free_first m null p c cs pos small ch in
    let (here, rest) = chain_parts m null p c cs ch in
    let size : (m p).size ≡ c.size = ap (λ (b : Block). b.size) here in
    let none_before : free_at (two_steps m p) (two_steps m p p).previous ≡ false =
      ap (free_at (two_steps m p)) f.back in
    let same = stays m p null f.back refl in
    let at = λ (a : Ptr). ap (λ (w : Mem Block). w a) same in
    (
      es,
      record {
        spec = ground (arith, f.spec, busy);
        chain = Chain_agree (two_steps m p) (released m p) null p es (λ a le. at a) f.chain;
        below = λ a lt. at a ∙ f.below a lt;
        links = λ x. ap (link x) (sym f.spec) ∙ link-join c.size cs x;
        used = ground (arith, f.used, size, busy);
        free = ground (arith, f.free, size, busy, none_before);
      },
    )

freed_of :
    (m : Mem Block) (previous p : Ptr) (c : Cell) (cs xs ys : List Cell)
    → xs ≡ ys
    → Freed m previous p c cs xs
    → Freed m previous p c cs ys
freed_of m previous p c cs xs ys e h = rw (← e) h

-- A block behind another.
module _ (m : Mem Block) (previous p : Ptr) (c d : Cell) (ds : List Cell) (pos : 0 < p)
    (small : extent (c ∷ d ∷ ds) ≤ 65536) (busy : d.used ≡ true)
    (ch : Chain m previous p (c ∷ d ∷ ds)) where
  abbrev q : Ptr
  q = after p c

  rest_small : extent (d ∷ ds) ≤ 65536
  unfolding extent
  rest_small = omega arith

  module _ (e : Cell) (es : List Cell) (f : Freed m p q d ds (e ∷ es)) (idle : e.used ≡ false)
      (e_le : e.size ≤ d.size + extent ds) where
    steps_here : two_steps m q p ≡ header c previous q
    steps_here = f.below p (omega arith) ∙ (chain_parts m previous p c (d ∷ ds) ch).0

    steps_chain : Chain (two_steps m q) previous p (c ∷ e ∷ es)
    steps_chain = chain_cons (two_steps m q) previous p c (e ∷ es) steps_here f.chain

    before : free_at (two_steps m q) (two_steps m q q).previous ≡ not c.used
    before =
        ap (free_at (two_steps m q)) f.back
        ∙ free_state (two_steps m q) previous p c (e ∷ es) pos steps_chain

    size_there : (m q).size ≡ d.size
    size_there =
        let (here, rest) = chain_parts m previous p c (d ∷ ds) ch in
        ap (λ (b : Block). b.size) (chain_parts m p q d ds rest).0

    spec_there : give (q + 32) p (c ∷ d ∷ ds) ≡ join c (e ∷ es)
    unfolding give
    spec_there = ground (arith, busy, f.spec, ap (join c) f.spec)

    second_busy : c.used ≡ true → Given m previous p (c ∷ d ∷ ds) (q + 32) q (c ∷ e ∷ es)
    unfolding used_bytes free_bytes join
    second_busy held =
        let same =
          stays m q p f.back (sym (ap (free_at (two_steps m q)) f.back) ∙ before ∙ ap not held) in
        let at = λ (a : Ptr). ap (λ (w : Mem Block). w a) same in
        record {
          spec = spec_there ∙ ground (arith, held);
          chain =
              Chain_agree (two_steps m q) (released m q) previous p (c ∷ e ∷ es) (λ a le. at a)
                steps_chain;
          below = λ a lt. at a ∙ f.below a (omega arith);
          links = λ x. refl;
          used = ground (arith, f.used, size_there, busy, held, idle);
          free = ground (arith, f.free, size_there, busy, held, idle, before);
        }

    second_idle :
        c.used ≡ false
        → Given m previous p (c ∷ d ∷ ds) (q + 32) q (free_cell (c.size + (32 + e.size)) ∷ es)
    unfolding used_bytes free_bytes join merge_previous extent
    second_idle unused =
        let (there, rest) = chain_parts (two_steps m q) p q e es f.chain in
        let (chain, below) =
          absorb_lem (two_steps m q) previous p c e es pos unused idle (omega arith) steps_here
            there rest in
        let merged : released m q ≡ absorb (two_steps m q) p q =
          ap
            (λ (x : Bool).
              if x then absorb (two_steps m q) (two_steps m q q).previous q else two_steps m q)
            (before ∙ ap not unused)
          ∙ ap (λ (x : Ptr). absorb (two_steps m q) x q) f.back in
        let at = λ (a : Ptr). ap (λ (w : Mem Block). w a) merged in
        record {
          spec = spec_there ∙ ground (arith, unused, idle);
          chain =
              Chain_agree (absorb (two_steps m q) p q) (released m q) previous p
                (free_cell (c.size + (32 + e.size)) ∷ es) (λ a le. at a) chain;
          below = λ a lt. at a ∙ below a lt ∙ f.below a (omega arith);
          links = λ x. refl;
          used = ground (arith, f.used, size_there, busy, unused, idle);
          free = ground (arith, f.free, size_there, busy, unused, idle, before);
        }

  pub give_second : (es : List Cell) × Given m previous p (c ∷ d ∷ ds) (q + 32) q es
  give_second =
      let (xs, f) =
        free_first m p q d ds (omega arith) rest_small (chain_parts m previous p c (d ∷ ds) ch).1 in
      let (e, es, at, idle, le) = join_shape d.size ds in
      let g : Freed m p q d ds (e ∷ es) = freed_of m p q d ds xs (e ∷ es) (sym f.spec ∙ at) f in
      elim (Bool-cases c.used) [
        | inl held ↦ (c ∷ e ∷ es, second_busy e es g idle le held)
        | inr unused ↦ (free_cell (c.size + (32 + e.size)) ∷ es, second_idle e es g idle le unused)
      ]
