-- ===== src/Heap/Free.antt =====
-- kfree at the first block of a chain: it becomes free and takes in the block behind it, if that is free.
use batos_os.Prelude.{
  ◌+◌, ◌^◌, ◌≤◌, ◌<◌, ◌≡◌, refl, ap, ◌∙◌, Bool, true, false, not, List, [], ◌∷◌, arith,
  if◌then◌else◌, Ptr, Mem, store, store_self, store_ne, Bool-cases, inl, inr,
}
use batos_os.Heap.{Block, block_free, absorb, merge_next, free_at}
use batos_os.Heap.Cells.{Cell, free_cell, join, used_bytes, free_bytes, extent}
use batos_os.Heap.Chain.{link, header, after, Chain, Chain_agree}
use batos_os.Heap.Absorb.{absorb_lem}

abbrev pub unmarked : Mem Block → Ptr → Mem Block
unmarked m block = store m block (record (m block) { state = block_free })

-- What the first two steps of kfree do at the first block.
pub record Freed (m : Mem Block) (previous p : Ptr) (c : Cell) (cs : List Cell) (es : List Cell)
    : Type 0 where
  pub spec : join (free_cell c.size) cs ≡ es
  pub chain : Chain (merge_next (unmarked m p) p) previous p es
  pub below : (a : Ptr) → a < p → merge_next (unmarked m p) p a ≡ m a
  pub back : (merge_next (unmarked m p) p p).previous ≡ previous
  pub used : used_bytes es ≡ used_bytes cs
  pub free :
      free_bytes es
      ≡ free_bytes cs + c.size + (if free_at (unmarked m p) (unmarked m p p).next then 32 else 0)

first_back :
    (m : Mem Block) (previous p : Ptr) (cs : List Cell) (c : Cell)
    → Chain m previous p (c ∷ cs)
    → (m p).previous ≡ previous
unfolding Chain
first_back m previous p cs c ch = ap (λ (b : Block). b.previous) ch.0

pub chain_parts :
    (m : Mem Block) (previous p : Ptr) (c : Cell) (cs : List Cell)
    → Chain m previous p (c ∷ cs)
    → (m p ≡ header c previous (link (after p c) cs)) × Chain m p (after p c) cs
unfolding Chain
chain_parts m previous p c cs ch = ch

pub chain_cons :
    (m : Mem Block) (previous p : Ptr) (c : Cell) (cs : List Cell)
    → m p ≡ header c previous (link (after p c) cs)
    → Chain m p (after p c) cs
    → Chain m previous p (c ∷ cs)
unfolding Chain
chain_cons m previous p c cs here rest = (here, rest)

unmark_chain :
    (m : Mem Block) (previous p : Ptr) (c : Cell) (cs : List Cell)
    → Chain m previous p (c ∷ cs)
    → Chain (unmarked m p) previous p (free_cell c.size ∷ cs)
unmark_chain m previous p c cs ch =
    let (here, rest) = chain_parts m previous p c cs ch in
    chain_cons (unmarked m p) previous p (free_cell c.size) cs
      (store_self m p (record (m p) { state = block_free })
        ∙ ap (λ (b : Block). record b { state = block_free }) here)
      (Chain_agree m (unmarked m p) p (after p c) cs
        (λ a le. store_ne m p a (record (m p) { state = block_free }) (λ e. absurd (omega arith)))
        rest)

module _ (m : Mem Block) (previous p : Ptr) (c : Cell) (cs : List Cell) (pos : 0 < p)
    (ch : Chain m previous p (c ∷ cs)) where
  unmark_below : (a : Ptr) → a < p → unmarked m p a ≡ m a
  unmark_below a lt =
      store_ne m p a (record (m p) { state = block_free }) (λ e. absurd (omega arith))

  next_here : (unmarked m p p).next ≡ link (after p c) cs
  next_here =
      let (here, rest) =
        chain_parts (unmarked m p) previous p (free_cell c.size) cs
          (unmark_chain m previous p c cs ch) in
      ap (λ (b : Block). b.next) here

  -- The block behind is not there or is used.
  alone :
      free_at (unmarked m p) (unmarked m p p).next ≡ false
      → join (free_cell c.size) cs ≡ free_cell c.size ∷ cs
      → Freed m previous p c cs (free_cell c.size ∷ cs)
  unfolding merge_next used_bytes free_bytes
  alone no_free same =
      let free_chain = unmark_chain m previous p c cs ch in
      let stays : merge_next (unmarked m p) p ≡ unmarked m p = ground (arith, no_free) in
      let at = λ (a : Ptr). ap (λ (w : Mem Block). w a) stays in
      record {
        spec = same;
        chain =
            Chain_agree (unmarked m p) (merge_next (unmarked m p) p) previous p
              (free_cell c.size ∷ cs) (λ a le. at a) free_chain;
        below = λ a lt. at a ∙ unmark_below a lt;
        back =
            ap (λ (b : Block). b.previous) (at p)
            ∙ first_back (unmarked m p) previous p cs (free_cell c.size) free_chain;
        used = omega arith;
        free = ground (arith, no_free);
      }

pub free_state :
    (m : Mem Block) (previous p : Ptr) (c : Cell) (cs : List Cell)
    → 0 < p
    → Chain m previous p (c ∷ cs)
    → free_at m p ≡ not c.used
free_state m previous p c cs pos ch =
    let (here, rest) = chain_parts m previous p c cs ch in
    ground (arith, ap (λ (b : Block). b.state) here)

-- The block behind is free.
joined :
    (m : Mem Block) (previous p : Ptr) (c d : Cell) (ds : List Cell)
    → 0 < p
    → c.size + d.size + 32 < 2 ^ 64
    → d.used ≡ false
    → Chain m previous p (c ∷ d ∷ ds)
    → Freed m previous p c (d ∷ ds) (free_cell (c.size + (32 + d.size)) ∷ ds)
unfolding join merge_next used_bytes free_bytes
joined m previous p c d ds pos small idle ch =
    let q : Ptr = after p c in
    let free_chain = unmark_chain m previous p c (d ∷ ds) ch in
    let (here, rest) =
      chain_parts (unmarked m p) previous p (free_cell c.size) (d ∷ ds) free_chain in
    let (there, rest2) = chain_parts (unmarked m p) p q d ds rest in
    let next = next_here m previous p c (d ∷ ds) pos ch in
    let state : free_at (unmarked m p) (unmarked m p p).next ≡ true =
      ap (free_at (unmarked m p)) next
      ∙ free_state (unmarked m p) p q d ds (omega arith) rest
      ∙ ap not idle in
    let merged : merge_next (unmarked m p) p ≡ absorb (unmarked m p) p q =
      ap (λ (b : Bool). if b then absorb (unmarked m p) p (unmarked m p p).next else unmarked m p)
        state
      ∙ ap (absorb (unmarked m p) p) next in
    let (chain, below) =
      absorb_lem (unmarked m p) previous p (free_cell c.size) d ds pos refl idle small here there
        rest2 in
    let at = λ (a : Ptr). ap (λ (w : Mem Block). w a) merged in
    record {
      spec = ground (arith, idle);
      chain =
          Chain_agree (absorb (unmarked m p) p q) (merge_next (unmarked m p) p) previous p
            (free_cell (c.size + (32 + d.size)) ∷ ds) (λ a le. at a) chain;
      below = λ a lt. at a ∙ below a lt ∙ unmark_below m previous p c (d ∷ ds) pos ch a lt;
      back =
          ap (λ (b : Block). b.previous) (at p)
          ∙ first_back (absorb (unmarked m p) p q) previous p ds
              (free_cell (c.size + (32 + d.size))) chain;
      used = ground (arith, idle);
      free = ground (arith, idle, state);
    }

pub free_first :
    (m : Mem Block) (previous p : Ptr) (c : Cell) (cs : List Cell)
    → 0 < p
    → extent (c ∷ cs) ≤ 65536
    → Chain m previous p (c ∷ cs)
    → (es : List Cell) × Freed m previous p c cs es
unfolding join extent
free_first m previous p c [] pos small ch = (
  free_cell c.size ∷ [],
  alone m previous p c [] pos ch (ap (free_at (unmarked m p)) (next_here m previous p c [] pos ch))
      refl,
)
free_first m previous p c (d ∷ ds) pos small ch =
    let q : Ptr = after p c in
    let free_chain = unmark_chain m previous p c (d ∷ ds) ch in
    let (here, rest) =
      chain_parts (unmarked m p) previous p (free_cell c.size) (d ∷ ds) free_chain in
    let state : free_at (unmarked m p) (unmarked m p p).next ≡ not d.used =
      ap (free_at (unmarked m p)) (next_here m previous p c (d ∷ ds) pos ch)
      ∙ free_state (unmarked m p) p q d ds (omega arith) rest in
    elim (Bool-cases d.used) [
      | inl busy ↦ (
        free_cell c.size ∷ d ∷ ds,
        alone m previous p c (d ∷ ds) pos ch (state ∙ ap not busy) (ground (arith, busy)),
      )
      | inr idle ↦ (
        free_cell (c.size + (32 + d.size)) ∷ ds,
        joined m previous p c d ds pos (omega arith) idle ch,
      )
    ]
