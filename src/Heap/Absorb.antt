-- ===== src/Heap/Absorb.antt =====
-- A free block takes in the free block behind it.
use batos_os.Prelude.{
  ℕ, ◌+◌, ◌^◌, ◌<◌, ◌≡◌, sym, ap, ap₂, ◌∙◌, Bool, false, List, ◌∷◌, arith, Ptr, Mem, store,
  store_self, store_ne, add_u64,
}
use batos_os.Heap.{Block, set_previous, absorb}
use batos_os.Heap.Cells.{Cell, free_cell}
use batos_os.Heap.Chain.{
  link, header, after, Chain, Chain_agree, Chain_at, Chain-set_previous, set_previous_ne,
}

module _ (m : Mem Block) (previous p : Ptr) (c d : Cell) (ds : List Cell) (pos : 0 < p)
    (free : c.used ≡ false) (also_free : d.used ≡ false) (small : c.size + d.size + 32 < 2 ^ 64)
    (here : m p ≡ header c previous (after p c))
    (there : m (after p c) ≡ header d p (link (after (after p c) d) ds))
    (rest : Chain m (after p c) (after (after p c) d) ds) where
  abbrev whole : Cell
  whole = free_cell (c.size + (32 + d.size))

  abbrev end : Ptr
  end = after (after p c) d

  abbrev grown : Block
  grown = header whole previous (link end ds)

  grown_at :
      record (m p) {
        size = add_u64 (m p).size (add_u64 32 (m (after p c)).size);
        next = (m (after p c)).next;
      }
      ≡ grown
  grown_at =
      ap₂ (λ (a b : Block). record a { size = add_u64 a.size (add_u64 32 b.size); next = b.next })
        here there
      ∙ ap (λ (k : ℕ). record (header c previous (link end ds)) { size = k }) (omega arith)
      ∙ ap (λ (u : Bool). header (record whole { used = u }) previous (link end ds)) free

  absorb_at : absorb m p (after p c) ≡ set_previous (store m p grown) (link end ds) p
  unfolding absorb
  absorb_at =
      ap (λ (b : Block). let w = store m p b in set_previous w (w p).next p) grown_at
      ∙ ap (λ (l : Ptr). set_previous (store m p grown) l p)
          (ap (λ (b : Block). b.next) (store_self m p grown))

  pub absorb_lem :
      Chain (absorb m p (after p c)) previous p (whole ∷ ds)
      × ((a : Ptr) → a < p → absorb m p (after p c) a ≡ m a)
  unfolding Chain
  absorb_lem =
      let w : Mem Block = store m p grown in
      let same = λ (a : Ptr). ap (λ (x : Mem Block). x a) absorb_at in
      let at_end : after p whole ≡ end = omega arith in
      (
        (
          same p
              ∙ set_previous_ne w end p ds p (λ e. absurd (omega arith))
              ∙ store_self m p grown
              ∙ ap (λ (x : Ptr). header whole previous (link x ds)) (sym at_end),
          Chain_at (absorb m p (after p c)) p (after p whole) end ds at_end (
              Chain_agree (set_previous w (link end ds) p) (absorb m p (after p c)) p end ds
                (λ a le. same a)
                (Chain-set_previous w (after p c) end p ds (λ e. absurd (omega arith))
                  (Chain_agree m w (after p c) end ds
                    (λ a le. store_ne m p a grown (λ e. absurd (omega arith))) rest))),
        ),
        λ a lt.
            same a
            ∙ set_previous_ne w end p ds a (λ e. absurd (omega arith))
            ∙ store_ne m p a grown (λ e. absurd (omega arith)),
      )
