-- ===== src/Heap/Find.antt =====
-- The search of kfree: it finds the block of the payload, or none.
use batos_os.Prelude.{
  ℕ, zero, suc, ◌+◌, ◌≤◌, ◌<◌, ◌≡◌, ◌≢◌, refl, sym, ap, ◌∙◌, true, List, [], ◌∷◌, arith, ◌==◌,
  if◌then◌else◌, Ptr, null, Mem, length, Bool-cases, inl, inr, ◌⊎◌,
}
use batos_os.Heap.{Block, block_free, block_used, find_block}
use batos_os.Heap.Cells.{
  Cell, join, give, used_bytes, free_bytes, extent, AreSized, AreJoined, Apart, join-Apart,
}
use batos_os.Heap.Chain.{link, header, after, Chain}
use batos_os.Heap.Free.{chain_parts, chain_cons}
use batos_os.Heap.Give.{Given, give_first, give_second}

-- The block that the search of kfree returns when it is in use: the payload is its, and it lies among
-- the cells.
pub record Held (m : Mem Block) (p : Ptr) (cs : List Cell) (ptr b : Ptr) : Type 0 where
  pub state : (m b).state ≡ block_used
  pub from : p ≤ b
  pub upto : b + 32 + (m b).size ≤ p + extent cs
  pub sized : 0 < (m b).size

-- What the search finds: nothing, a free block, or one in use, which can be freed.
abbrev pub Search : Mem Block → Ptr → Ptr → List Cell → Ptr → Ptr → Type 0
Search m previous p cs ptr b =
    ((b ≡ null) × (give ptr p cs ≡ cs))
    ⊎ (((b ≢ null) × ((m b).state ≡ block_free) × (give ptr p cs ≡ cs))
        ⊎ (Held m p cs ptr b × ((es : List Cell) × Given m previous p cs ptr b es)))

equal-Search :
    (m : Mem Block) (previous p : Ptr) (cs : List Cell) (x y a b : Ptr)
    → x ≡ y
    → a ≡ b
    → Search m previous p cs x a
    → Search m previous p cs y b
equal-Search m previous p cs x y a b e f h = rw (← e) (rw (← f) h)

-- A search behind the first two blocks.
later-Search :
    (m : Mem Block) (previous p : Ptr) (c d : Cell) (ds : List Cell) (ptr b : Ptr)
    → Chain m previous p (c ∷ d ∷ ds)
    → p + 32 ≢ ptr
    → after p c + 32 ≢ ptr
    → Search m p (after p c) (d ∷ ds) ptr b
    → Search m previous p (c ∷ d ∷ ds) ptr b
unfolding give used_bytes free_bytes extent
later-Search m previous p c d ds ptr b ch ne nq (inl (no_block, same)) =
    inl (no_block, ground (arith, ne, nq, ap (λ xs. c ∷ xs) same))
later-Search m previous p c d ds ptr b ch ne nq (inr (inl (some_block, idle, same))) =
    inr (inl (some_block, idle, ground (arith, ne, nq, ap (λ xs. c ∷ xs) same)))
later-Search m previous p c d ds ptr b ch ne nq (inr (inr (h, (es, g)))) =
    let (here, rest) = chain_parts m previous p c (d ∷ ds) ch in
    inr (
      inr (
        record {
          state = h.state;
          from = omega (arith, h.from);
          upto = omega (arith, h.upto);
          sized = h.sized;
        },
        (
          c ∷ es,
          record {
            spec = ground (arith, ne, nq, ap (λ xs. c ∷ xs) g.spec);
            chain =
                chain_cons _ previous p c es
                  (g.below p (omega arith)
                    ∙ here
                    ∙ ap (header c previous) (sym (g.links (after p c))))
                  g.chain;
            below = λ a lt. g.below a (omega arith);
            links = λ x. refl;
            used = omega (arith, g.used);
            free = omega (arith, g.free);
          },
        ),
      ))

header_facts :
    (m : Mem Block) (previous p : Ptr) (c : Cell) (cs : List Cell)
    → Chain m previous p (c ∷ cs)
    → ((m p).size ≡ c.size)
      × ((m p).state ≡ (if c.used then block_used else block_free))
      × ((m p).next ≡ link (after p c) cs)
header_facts m previous p c cs ch =
    let (here, rest) = chain_parts m previous p c cs ch in
    (
      ap (λ (b : Block). b.size) here,
      ap (λ (b : Block). b.state) here,
      ap (λ (b : Block). b.next) here,
    )

header-Held :
    (m : Mem Block) (previous p : Ptr) (c : Cell) (cs : List Cell)
    → Chain m previous p (c ∷ cs)
    → c.used ≡ true
    → 0 < c.size
    → Held m p (c ∷ cs) (p + 32) p
unfolding extent
header-Held m previous p c cs ch busy sized =
    let (size, state, next) = header_facts m previous p c cs ch in
    record {
      state = ground (arith, state, busy);
      from = omega arith;
      upto = omega (arith, size);
      sized = omega (arith, size);
    }

-- The second block is the one.
second_found :
    (m : Mem Block) (previous p : Ptr) (c d : Cell) (ds : List Cell)
    → 0 < p
    → extent (c ∷ d ∷ ds) ≤ 65536
    → 0 < d.size
    → Apart c (d ∷ ds)
    → Chain m previous p (c ∷ d ∷ ds)
    → Search m previous p (c ∷ d ∷ ds) (after p c + 32) (after p c)
unfolding give extent
second_found m previous p c d ds pos small sized apart ch =
    let (here, rest) = chain_parts m previous p c (d ∷ ds) ch in
    let (size, state, next) = header_facts m p (after p c) d ds rest in
    elim (Bool-cases d.used) [
      | inl busy ↦
          let h = header-Held m p (after p c) d ds rest busy sized in
          inr (
            inr (
              record {
                state = h.state;
                from = omega arith;
                upto = omega (arith, h.upto);
                sized = h.sized;
              },
              give_second m previous p c d ds pos small busy ch,
            ))
      | inr idle ↦ inr (
          inl (
            λ e. absurd (omega arith),
            ground (arith, state, idle),
            ground (arith, idle, join-Apart c (d ∷ ds) apart),
          ))
    ]

-- The search goes on behind the first block.
pub second-Search :
    (m : Mem Block) (previous p : Ptr) (c : Cell) (cs : List Cell) (ptr k : ℕ)
    → 0 < p
    → extent (c ∷ cs) ≤ 65536
    → AreSized (c ∷ cs)
    → AreJoined (c ∷ cs)
    → length cs ≤ k
    → Chain m previous p (c ∷ cs)
    → p + 32 ≢ ptr
    → Search m previous p (c ∷ cs) ptr (find_block m (link (after p c) cs) ptr k)
unfolding give find_block extent AreSized AreJoined join
second-Search m previous p c [] ptr zero pos small z j few ch ne = inl (refl, ground (arith, ne))
second-Search m previous p c [] ptr (suc k) pos small z j few ch ne = inl (refl, ground (arith, ne))
second-Search m previous p c (d ∷ ds) ptr zero pos small z j few ch ne = absurd (omega arith)
second-Search m previous p c (d ∷ ds) ptr (suc k) pos small z j few ch ne =
    let q : Ptr = after p c in
    let rest = (chain_parts m previous p c (d ∷ ds) ch).1 in
    let (size, state, next) = header_facts m p q d ds rest in
    elim (Bool-cases (q + 32 == ptr)) [
      | inl here ↦
          let at : q + 32 ≡ ptr = ground arith in
          let found : find_block m q ptr (suc k) ≡ q = ground (arith, here) in
          equal-Search m previous p (c ∷ d ∷ ds) (q + 32) ptr q _ at (sym found)
            (second_found m previous p c d ds pos small z.1.0.0 j.0 ch)
      | inr there ↦
          let on : find_block m q ptr (suc k) ≡ find_block m (link (after q d) ds) ptr k =
            ground (arith, there, ap (λ (x : Ptr). find_block m x ptr k) next) in
          let nq : q + 32 ≢ ptr = ground arith in
          equal-Search m previous p (c ∷ d ∷ ds) ptr ptr _ _ refl (sym on) (
            later-Search m previous p c d ds ptr (find_block m (link (after q d) ds) ptr k) ch ne nq
              (second-Search m p q d ds ptr k (omega arith) (omega arith) z.1 j.1 (omega arith) rest
                nq))
    ]

-- From the first block of the arena on.
pub find_block-Search :
    (m : Mem Block) (p : Ptr) (c : Cell) (cs : List Cell) (ptr k : ℕ)
    → 0 < p
    → extent (c ∷ cs) ≤ 65536
    → AreSized (c ∷ cs)
    → AreJoined (c ∷ cs)
    → length cs ≤ k
    → Chain m null p (c ∷ cs)
    → Search m null p (c ∷ cs) ptr (find_block m p ptr (suc k))
unfolding give find_block AreSized
find_block-Search m p c cs ptr k pos small z j few ch =
    let (size, state, next) = header_facts m null p c cs ch in
    elim (Bool-cases (p + 32 == ptr)) [
      | inl here ↦
          let at : p + 32 ≡ ptr = ground arith in
          let found : find_block m p ptr (suc k) ≡ p = ground (arith, here) in
          equal-Search m null p (c ∷ cs) (p + 32) ptr p _ at (sym found) (elim (Bool-cases c.used) [
            | inl busy ↦ inr (
                inr
                  (header-Held m null p c cs ch busy z.0.0, give_first m p c cs pos small busy ch))
            | inr idle ↦
                inr (
                  inl
                    (λ e. absurd (omega arith), ground (arith, state, idle), ground (arith, idle)))
          ])
      | inr there ↦
          let on : find_block m p ptr (suc k) ≡ find_block m (link (after p c) cs) ptr k =
            ground (arith, there, ap (λ (x : Ptr). find_block m x ptr k) next) in
          equal-Search m null p (c ∷ cs) ptr ptr _ _ refl (sym on)
            (second-Search m null p c cs ptr k pos small z j few ch (ground arith))
    ]
