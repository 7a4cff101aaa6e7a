-- ===== src/Heap/Take.antt =====
-- The loop of kmalloc: it finds the cell that first fit takes, and takes it.
use batos_os.Prelude.{
  ℕ, zero, suc, ◌+◌, ◌-◌, ◌^◌, ◌≤◌, ◌<◌, ◌≡◌, refl, sym, ap, ◌∙◌, false, not, ◌&&◌, List, [], ◌∷◌,
  arith, leb, if◌then◌else◌, Ptr, null, Mem, sub_u64, Bool-cases, inl, inr, ◌⊎◌, length, some, none,
}
use batos_os.Heap.{Block, splits, take_block, fits, find_fit}
use batos_os.Heap.Cells.{Cell, free_cell, used_cell, cut, take, used_bytes, free_bytes, extent}
use batos_os.Heap.Chain.{link, header, after, Chain, whole_lem, split_lem}

-- What kmalloc has done to the headers when it takes a block.
pub record Taken (m : Mem Block) (previous p : Ptr) (cs : List Cell) (n : ℕ) (block : Ptr)
    (ds : List Cell) : Type 0 where
  pub spec : take n p cs ≡ some (block + 32, ds)
  pub from : p ≤ block
  pub chain : Chain (take_block m block n) previous p ds
  pub below : (a : Ptr) → a < p → take_block m block n a ≡ m a
  pub links : (x : Ptr) → link x ds ≡ link x cs
  pub used : used_bytes ds ≡ used_bytes cs + (take_block m block n block).size
  pub free :
      free_bytes cs
      ≡ free_bytes ds + (take_block m block n block).size + (if splits (m block) n then 32 else 0)

-- The first cell fits.
take_first :
    (m : Mem Block) (previous p : Ptr) (c : Cell) (cs : List Cell) (n : ℕ)
    → 0 < p
    → Chain m previous p (c ∷ cs)
    → c.used ≡ false
    → 0 < n
    → n ≤ c.size
    → c.size < 2 ^ 64
    → Taken m previous p (c ∷ cs) n p (cut n c cs)
unfolding take Chain used_bytes free_bytes
take_first m previous p c cs n pos (here, rest) unused some_bytes le small =
    let size : (m p).size ≡ c.size = ap (λ (b : Block). b.size) here in
    let same : splits (m p) n ≡ leb 64 (c.size - n) =
      ap (λ (k : ℕ). leb 64 (sub_u64 k n)) size ∙ ap (leb 64) (omega arith) in
    elim (Bool-cases (leb 64 (c.size - n))) [
      | inl room ↦
          let (chain, below, at) =
            split_lem m previous p c cs n pos here rest unused some_bytes le small room in
          let eq : cut n c cs ≡ used_cell n ∷ free_cell (c.size - n - 32) ∷ cs =
            ground (arith, room) in
          rw eq (record {
            spec = ground (arith, unused, room);
            from = omega arith;
            chain = chain;
            below = below;
            links = λ x. refl;
            used = ground (arith, at, unused);
            free = ground (arith, at, unused, same, room);
          })
      | inr whole ↦
          let (chain, below, at) =
            whole_lem m previous p c cs n pos here rest unused some_bytes le small whole in
          let eq : cut n c cs ≡ used_cell c.size ∷ cs = ground (arith, whole) in
          rw eq (record {
            spec = ground (arith, unused, whole);
            from = omega arith;
            chain = chain;
            below = below;
            links = λ x. refl;
            used = ground (arith, at, unused);
            free = ground (arith, at, unused, same, whole);
          })
    ]

-- A later cell fits.
take_later :
    (m : Mem Block) (previous p : Ptr) (c : Cell) (cs : List Cell) (n : ℕ) (b : Ptr)
    (ds : List Cell)
    → Chain m previous p (c ∷ cs)
    → (not c.used && leb n c.size) ≡ false
    → Taken m p (after p c) cs n b ds
    → Taken m previous p (c ∷ cs) n b (c ∷ ds)
unfolding take Chain used_bytes free_bytes
take_later m previous p c cs n b ds (here, rest) passed t = record {
  spec = ground (arith, passed, t.spec);
  from = omega (arith, t.from);
  chain = (
    t.below p (omega arith) ∙ here ∙ ap (header c previous) (sym (t.links (after p c))),
    t.chain,
  );
  below = λ a lt. t.below a (omega arith);
  links = λ x. refl;
  used = omega (arith, t.used);
  free = omega (arith, t.free);
}

fits_here :
    (m : Mem Block) (previous p : Ptr) (c : Cell) (cs : List Cell) (n : ℕ)
    → Chain m previous p (c ∷ cs)
    → (fits (m p) n ≡ (not c.used && leb n c.size)) × ((m p).next ≡ link (after p c) cs)
unfolding Chain
fits_here m previous p c cs n (here, rest) =
    (ap (λ (b : Block). fits b n) here ∙ ground arith, ap (λ (b : Block). b.next) here)

tail :
    (m : Mem Block) (previous p : Ptr) (c : Cell) (cs : List Cell)
    → Chain m previous p (c ∷ cs)
    → Chain m p (after p c) cs
unfolding Chain
tail m previous p c cs ch = ch.1

-- On a chain that is no longer than the rounds, the loop finds what first fit takes, or NULL where no
-- cell fits.
pub find_fit_takes :
    (m : Mem Block) (previous p : Ptr) (cs : List Cell) (n k : ℕ)
    → 0 < p
    → 0 < n
    → Chain m previous p cs
    → extent cs ≤ 65536
    → length cs ≤ k
    → ((find_fit m (link p cs) n k ≡ null) × (take n p cs ≡ none))
      ⊎ ((ds : List Cell) × Taken m previous p cs n (find_fit m (link p cs) n k) ds)
unfolding take find_fit extent
find_fit_takes m previous p [] n zero pos some_bytes ch small few = inl (refl, refl)
find_fit_takes m previous p [] n (suc k) pos some_bytes ch small few = inl (refl, refl)
find_fit_takes m previous p (c ∷ cs) n zero pos some_bytes ch small few = absurd (omega arith)
find_fit_takes m previous p (c ∷ cs) n (suc k) pos some_bytes ch small few =
    let (test, next) = fits_here m previous p c cs n ch in
    elim (Bool-cases (not c.used && leb n c.size)) [
      | inl here ↦
          let at : find_fit m p n (suc k) ≡ p = ground (arith, test, here) in
          inr (
            cut n c cs,
            rw at (
                take_first m previous p c cs n pos ch (ground arith) some_bytes (ground arith)
                  (omega arith)),
          )
      | inr passed ↦
          let at : find_fit m p n (suc k) ≡ find_fit m (link (after p c) cs) n k =
            ground (arith, test, passed, ap (λ (x : Ptr). find_fit m x n k) next) in
          elim (find_fit_takes m p (after p c) cs n k (omega arith) some_bytes
            (tail m previous p c cs ch) (omega arith) (omega arith)) [
              | inl (no_block, nothing) ↦ inl (at ∙ no_block, ground (arith, passed, nothing))
              | inr (ds, t) ↦ inr (
                c ∷ ds,
                rw at (
                    take_later m previous p c cs n (find_fit m (link (after p c) cs) n k) ds ch
                      passed t),
              )
            ]
    ]
