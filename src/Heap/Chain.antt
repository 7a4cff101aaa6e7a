-- ===== src/Heap/Chain.antt =====
-- The blocks in memory as a list of cells: each header has its cell's size and state and the links to
-- the blocks on both sides, and the next block stands behind the payload.
use batos_os.Prelude.{
  ℕ, ◌+◌, ◌-◌, ◌^◌, ◌≤◌, ◌<◌, ◌≡◌, ◌≢◌, refl, sym, ap, ◌∙◌, Bool, true, false, List, [], ◌∷◌, arith,
  leb, if◌then◌else◌, Ptr, null, Mem, store, store_self, store_ne, sub_u64,
}
use batos_os.Heap.{Block, block_free, block_used, splits, split_block, take_block, set_previous}
use batos_os.Heap.Cells.{Cell, free_cell, used_cell}

abbrev pub link : Ptr → List Cell → Ptr
link q [] = null
link q (c ∷ cs) = q

abbrev pub header : Cell → Ptr → Ptr → Block
header c previous next = record {
  size = c.size;
  state = if c.used then block_used else block_free;
  previous = previous;
  next = next;
}

abbrev pub after : Ptr → Cell → Ptr
after p c = p + 32 + c.size

unfoldable pub Chain : Mem Block → Ptr → Ptr → List Cell → Type 0
Chain m previous p [] = Unit {0}
Chain m previous p (c ∷ cs) =
    (m p ≡ header c previous (link (after p c) cs)) × Chain m p (after p c) cs

-- Only the headers from the first block on matter.
pub Chain_agree :
    (m n : Mem Block) (previous p : Ptr) (cs : List Cell)
    → ((a : Ptr) → p ≤ a → n a ≡ m a)
    → Chain m previous p cs
    → Chain n previous p cs
unfolding Chain
Chain_agree m n previous p [] same h = tt
Chain_agree m n previous p (c ∷ cs) same (here, rest) = (
  same p (omega arith) ∙ here,
  Chain_agree m n p (after p c) cs (λ a le. same a (omega arith)) rest,
)

pub Chain_at :
    (m : Mem Block) (previous p q : Ptr) (cs : List Cell)
    → p ≡ q
    → Chain m previous q cs
    → Chain m previous p cs
Chain_at m previous p q cs e h = rw e h

-- A write to the link back of the block at `q`, or to none.
pub set_previous_ne :
    (m : Mem Block) (q b : Ptr) (cs : List Cell) (a : Ptr)
    → a ≢ q
    → set_previous m (link q cs) b a ≡ m a
unfolding store
set_previous_ne m q b [] a ne = refl
set_previous_ne m q b (c ∷ cs) a ne = ground (arith, ne)

set_previous_self :
    (m : Mem Block) (q b : Ptr) → q ≢ null → set_previous m q b q ≡ record (m q) { previous = b }
unfolding store
set_previous_self m q b ne = ground (arith, ne)

pub Chain-set_previous :
    (m : Mem Block) (previous p b : Ptr) (cs : List Cell)
    → p ≢ null
    → Chain m previous p cs
    → Chain (set_previous m (link p cs) b) b p cs
unfolding Chain
Chain-set_previous m previous p b [] ne h = tt
Chain-set_previous m previous p b (c ∷ cs) ne (here, rest) = (
  set_previous_self m p b ne ∙ ap (λ (x : Block). record x { previous = b }) here,
  Chain_agree m (set_previous m p b) p (after p c) cs
      (λ a le. set_previous_ne m p b (c ∷ cs) a (λ e. absurd (omega arith))) rest,
)

-- The first block is taken.
module _ (m : Mem Block) (previous p : Ptr) (c : Cell) (cs : List Cell) (n : ℕ) (pos : 0 < p)
    (here : m p ≡ header c previous (link (after p c) cs)) (rest : Chain m p (after p c) cs)
    (unused : c.used ≡ false) (some_bytes : 0 < n) (le : n ≤ c.size) (small : c.size < 2 ^ 64) where
  abbrev q : Ptr
  q = after p c

  abbrev r : Ptr
  r = p + 32 + n

  abbrev mark : Mem Block → Mem Block
  mark w = store w p (record (w p) { state = block_used })

  size_here : (m p).size ≡ c.size
  size_here = ap (λ (b : Block). b.size) here

  splits_here : splits (m p) n ≡ leb 64 (c.size - n)
  splits_here = ap (λ (k : ℕ). leb 64 (sub_u64 k n)) size_here ∙ ap (leb 64) (omega arith)

  take_whole : leb 64 (c.size - n) ≡ false → take_block m p n ≡ mark m
  unfolding take_block
  take_whole no_room =
      ap (λ (b : Bool). mark (if b then split_block m p n else m)) (splits_here ∙ no_room)

  pub whole_lem :
      leb 64 (c.size - n) ≡ false
      → Chain (take_block m p n) previous p (used_cell c.size ∷ cs)
        × ((a : Ptr) → a < p → take_block m p n a ≡ m a)
        × ((take_block m p n p).size ≡ c.size)
  unfolding Chain
  whole_lem no_room =
      let e = take_whole no_room in
      let at : mark m p ≡ header (used_cell c.size) previous (link q cs) =
        store_self m p (record (m p) { state = block_used })
        ∙ ap (λ (b : Block). record b { state = block_used }) here in
      let others =
        λ (a : Ptr) (ne : p ≢ a). store_ne m p a (record (m p) { state = block_used }) ne in
      (
        (
          ap (λ (w : Mem Block). w p) e ∙ at,
          Chain_agree m (take_block m p n) p q cs
              (λ a le. ap (λ (w : Mem Block). w a) e ∙ others a (λ x. absurd (omega arith))) rest,
        ),
        λ a lt. ap (λ (w : Mem Block). w a) e ∙ others a (λ x. absurd (omega arith)),
        ap (λ (w : Mem Block). (w p).size) e ∙ ap (λ (b : Block). b.size) at,
      )

  module _ (room : leb 64 (c.size - n) ≡ true) where
    abbrev fresh : Block
    fresh = record { size = c.size - n - 32; state = block_free; previous = p; next = link q cs }

    abbrev m1 : Mem Block
    m1 = store m r fresh

    abbrev m2 : Mem Block
    m2 = set_previous m1 (link q cs) r

    abbrev shrink : Mem Block → Mem Block
    shrink w = store w p (record (w p) { next = r; size = n })

    fresh_at :
        record {
          size = sub_u64 (sub_u64 (m p).size n) 32;
          state = block_free;
          previous = p;
          next = (m p).next;
        }
        ≡ fresh
    fresh_at =
        ap
          (λ (b : Block). record {
            size = sub_u64 (sub_u64 b.size n) 32;
            state = block_free;
            previous = p;
            next = b.next;
          })
          here
        ∙ ap (λ (k : ℕ). record { size = k; state = block_free; previous = p; next = link q cs })
            (ground arith)

    split_at : split_block m p n ≡ shrink m2
    unfolding split_block
    split_at =
        ap (λ (b : Block). let w = store m r b in shrink (set_previous w (w r).next r)) fresh_at
        ∙ ap (λ (l : Ptr). shrink (set_previous m1 l r))
            (ap (λ (b : Block). b.next) (store_self m r fresh))

    take_split : take_block m p n ≡ mark (shrink m2)
    unfolding take_block
    take_split =
        ap (λ (b : Bool). mark (if b then split_block m p n else m)) (splits_here ∙ room)
        ∙ ap mark split_at

    abbrev took : Mem Block
    took = mark (shrink m2)

    took_ne : (a : Ptr) → a ≢ p → a ≢ q → a ≢ r → took a ≡ m a
    took_ne a np nq nr =
        store_ne (shrink m2) p a (record (shrink m2 p) { state = block_used }) (λ e. np (sym e))
        ∙ store_ne m2 p a (record (m2 p) { next = r; size = n }) (λ e. np (sym e))
        ∙ set_previous_ne m1 q r cs a nq
        ∙ store_ne m r a fresh (λ e. nr (sym e))

    took_self : took p ≡ header (used_cell n) previous r
    took_self =
        let below : m2 p ≡ header c previous (link q cs) =
          set_previous_ne m1 q r cs p (λ e. absurd (omega arith))
          ∙ store_ne m r p fresh (λ e. absurd (omega arith))
          ∙ here in
        store_self (shrink m2) p (record (shrink m2 p) { state = block_used })
        ∙ ap (λ (b : Block). record b { state = block_used })
            (store_self m2 p (record (m2 p) { next = r; size = n })
              ∙ ap (λ (b : Block). record b { next = r; size = n }) below)

    took_fresh : took r ≡ fresh
    took_fresh =
        store_ne (shrink m2) p r (record (shrink m2 p) { state = block_used })
          (λ e. absurd (omega arith))
        ∙ store_ne m2 p r (record (m2 p) { next = r; size = n }) (λ e. absurd (omega arith))
        ∙ set_previous_ne m1 q r cs r (λ e. absurd (ground arith))
        ∙ store_self m r fresh

    took_rest : Chain took r q cs
    took_rest =
        Chain_agree m2 took r q cs
          (λ a le.
            store_ne (shrink m2) p a (record (shrink m2 p) { state = block_used })
              (λ e. absurd (omega arith))
            ∙ store_ne m2 p a (record (m2 p) { next = r; size = n }) (λ e. absurd (omega arith)))
          (Chain-set_previous m1 p q r cs (λ e. absurd (omega arith))
            (Chain_agree m m1 p q cs (λ a le. store_ne m r a fresh (λ e. absurd (ground arith)))
              rest))

    pub split_lem :
        Chain (take_block m p n) previous p (used_cell n ∷ free_cell (c.size - n - 32) ∷ cs)
        × ((a : Ptr) → a < p → take_block m p n a ≡ m a)
        × ((take_block m p n p).size ≡ n)
    unfolding Chain
    split_lem =
        let behind_rest : after r (free_cell (c.size - n - 32)) ≡ q = ground arith in
        let same = λ (a : Ptr). ap (λ (w : Mem Block). w a) take_split in
        (
          (
            same p ∙ took_self,
            (
              same r
                  ∙ took_fresh
                  ∙ ap (λ (x : Ptr). header (free_cell (c.size - n - 32)) p (link x cs))
                      (sym behind_rest),
              Chain_at (take_block m p n) r (after r (free_cell (c.size - n - 32))) q cs behind_rest
                  (Chain_agree took (take_block m p n) r q cs (λ a le. same a) took_rest),
            ),
          ),
          λ a lt.
              same a
              ∙ took_ne a (λ e. absurd (omega arith)) (λ e. absurd (omega arith))
                  (λ e. absurd (omega arith)),
          ap (λ (b : Block). b.size) (same p ∙ took_self),
        )
