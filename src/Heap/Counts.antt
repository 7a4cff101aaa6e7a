-- ===== src/Heap/Counts.antt =====
-- What the specification keeps: the sizes, the joined free cells, and the bytes of the arena.
use batos_os.Prelude.{
  ℕ, ◌+◌, ◌*◌, ◌%◌, ◌≤◌, ◌<◌, ◌≡◌, ◌≢◌, refl, ◌∙◌, false, not, ◌&&◌, some, List, [], ◌∷◌, arith,
  leb, ◌==◌, Ptr, length, Bool-cases, Option-cases, inl, inr,
}
use batos_os.Heap.Cells.{
  Cell, free_cell, cut, take, join, give, used_bytes, free_bytes, extent, AreSized, Apart,
  AreJoined,
}

-- What kmalloc and kfree keep of the cells.
pub record AreTiled (cs : List Cell) : Type 0 where
  pub sized : AreSized cs
  pub joined : AreJoined cs

-- The first cell of a result is in use, or is the first cell that was there, or is free where it was
-- free: what stands before it stays apart from it.
abbrev Fronts : List Cell → List Cell → Type 0
Fronts cs ds = (c : Cell) → Apart c cs → Apart c ds

module _ (n : ℕ) (pos : 0 < n) (round : n % 16 ≡ 0) where
  cut_keeps :
      (c : Cell) (cs : List Cell)
      → c.used ≡ false
      → n ≤ c.size
      → AreSized (c ∷ cs)
      → AreJoined (c ∷ cs)
      → AreSized (cut n c cs) × AreJoined (cut n c cs) × (extent (cut n c cs) ≡ extent (c ∷ cs))
  unfolding AreSized AreJoined extent
  cut_keeps c [] unused le z j = ground (arith, pos, round)
  cut_keeps c (d ∷ ds) unused le z j = ground (arith, pos, round)

  cut_fronts : (c : Cell) (cs : List Cell) (b : Cell) → Apart b (c ∷ cs) → Apart b (cut n c cs)
  cut_fronts c cs b h = ground arith

  pub take_keeps :
      (p : Ptr) (cs : List Cell) (a : ℕ) (ds : List Cell)
      → AreSized cs
      → AreJoined cs
      → take n p cs ≡ some (a, ds)
      → AreSized ds × AreJoined ds × (extent ds ≡ extent cs) × Fronts cs ds
  unfolding take AreSized AreJoined extent
  take_keeps p [] a ds z j t = ground arith
  take_keeps p (c ∷ cs) a ds z j t = elim (Bool-cases (not c.used && leb n c.size)) [
    | inl here ↦
        let eq : cut n c cs ≡ ds = ground arith in
        let (sized, joined, same) = cut_keeps c cs (ground arith) (ground arith) z j in
        rw (← eq) (sized, joined, same, cut_fronts c cs)
    | inr further ↦ elim (Option-cases (take n (p + 32 + c.size) cs)) [
      | inl none_there ↦ absurd (ground arith)
      | inr ((b, es), found) ↦
          let eq : c ∷ es ≡ ds = ground arith in
          let (sized, joined, same, fronts) = take_keeps (p + 32 + c.size) cs b es z.1 j.1 found in
          rw (← eq) ((z.0, sized), (fronts c j.0, joined), omega (arith, same), λ b h. h)
    ]
  ]

join_keeps :
    (c : Cell) (cs : List Cell)
    → (0 < c.size) × (c.size % 16 ≡ 0)
    → AreSized cs
    → AreJoined cs
    → AreSized (join c cs)
      × AreJoined (join c cs)
      × (extent (join c cs) ≡ 32 + c.size + extent cs)
      × ((b : Cell) → Apart b (c ∷ cs) → Apart b (join c cs))
unfolding join AreSized AreJoined extent
join_keeps c [] s z j = ((s, tt), (tt, tt), refl, λ b h. h)
join_keeps c (d ∷ []) s z j = (ground arith, ground arith, ground arith, λ b h. ground arith)
join_keeps c (d ∷ e ∷ es) s z j = (ground arith, ground arith, ground arith, λ b h. ground arith)

join_fronts : (c : Cell) (cs : List Cell) (b : Cell) → Apart b (c ∷ cs) → Apart b (join c cs)
unfolding join
join_fronts c [] b h = h
join_fronts c (d ∷ ds) b h = ground arith

-- A cell before stays apart from the cells, unless the first of them is given back.
give_fronts :
    (ptr p : Ptr) (cs : List Cell) (b : Cell) → p + 32 ≢ ptr → Apart b cs → Apart b (give ptr p cs)
unfolding give join
give_fronts ptr p [] b ne h = h
give_fronts ptr p (c ∷ cs) b ne h = elim (Bool-cases (p + 32 + c.size + 32 == ptr)) [
  | inl next ↦
      let at : give ptr p (c ∷ cs) ≡ join c (give ptr (p + 32 + c.size) cs) =
        ground (arith, ne, next) in
      rw at (join_fronts c (give ptr (p + 32 + c.size) cs) b h)
  | inr later ↦
      let at : give ptr p (c ∷ cs) ≡ c ∷ give ptr (p + 32 + c.size) cs =
        ground (arith, ne, later) in
      rw at h
]

pub give_keeps :
    (ptr p : Ptr) (cs : List Cell)
    → AreSized cs
    → AreJoined cs
    → AreSized (give ptr p cs) × AreJoined (give ptr p cs) × (extent (give ptr p cs) ≡ extent cs)
unfolding give AreSized AreJoined extent
give_keeps ptr p [] z j = (tt, tt, refl)
give_keeps ptr p (c ∷ cs) z j =
    let q : Ptr = p + 32 + c.size in
    let (sized, joined, same) = give_keeps ptr q cs z.1 j.1 in
    elim (Bool-cases (p + 32 == ptr)) [
      | inl here ↦ elim (Bool-cases c.used) [
        | inl busy ↦
            let at : give ptr p (c ∷ cs) ≡ join (free_cell c.size) cs =
              ground (arith, here, busy) in
            let (s, k, e, f) = join_keeps (free_cell c.size) cs z.0 z.1 j.1 in rw at (s, k, e)
        | inr idle ↦
            let at : give ptr p (c ∷ cs) ≡ c ∷ cs = ground (arith, here, idle) in rw at (z, j, refl)
      ]
      | inr there ↦ elim (Bool-cases (q + 32 == ptr)) [
        | inl next ↦
            let at : give ptr p (c ∷ cs) ≡ join c (give ptr q cs) = ground (arith, there, next) in
            let (s, k, e, f) = join_keeps c (give ptr q cs) z.0 sized joined in
            rw at (s, k, e ∙ omega (arith, same))
        | inr later ↦
            let at : give ptr p (c ∷ cs) ≡ c ∷ give ptr q cs = ground (arith, there, later) in
            rw at (
              (z.0, sized),
              (give_fronts ptr q cs c (ground arith) j.0, joined),
              omega (arith, same),
            )
      ]
    ]

-- Every cell takes at least its header.
pub length_le : (cs : List Cell) → length cs * 32 ≤ extent cs
unfolding extent
length_le [] = omega arith
length_le (c ∷ cs) = omega (arith, length_le cs)

-- Used and free bytes and the headers are all there is.
pub bytes_le : (cs : List Cell) → used_bytes cs + free_bytes cs + length cs * 32 ≡ extent cs
unfolding used_bytes free_bytes extent
bytes_le [] = refl
bytes_le (c ∷ cs) = ground (arith, bytes_le cs)
