-- ===== src/Heap/Runs.antt =====
-- Sequences of calls of the heap, its initial state, and where its payloads lie.
use batos_os.Prelude.{
  ℕ, ◌+◌, ◌%◌, ◌^◌, ◌≤◌, ◌<◌, ◌≡◌, ◌≢◌, refl, sym, ap, ap₂, ◌∙◌, not, ◌&&◌, none, some, List, [],
  ◌∷◌, arith, leb, Ptr, null, store_self, Bool-cases, Option-cases, inl, inr,
}
use batos_os.Heap.{Heap, align_up_safe, kmalloc, kfree, init}
use batos_os.Heap.Cells.{
  Cell, free_cell, take, give, used_bytes, free_bytes, extent, AreSized, AreJoined, give-take,
}
use batos_os.Heap.Chain.{Chain}
use batos_os.Heap.Refine.{IsHeap, served, aligned_facts, kmalloc_cases}
use batos_os.Heap.Release.{kfree_gives}

kmalloc-arena : (h : Heap) (size : ℕ) → (kmalloc h size).1.arena ≡ h.arena
unfolding kmalloc
kmalloc-arena h size = ground arith

kfree-arena : (h : Heap) (ptr : Ptr) → (kfree h ptr).arena ≡ h.arena
unfolding kfree
kfree-arena h ptr = ground arith

-- heap_init makes one free cell of the arena.
pub init-IsHeap :
    (h : Heap) → 0 < h.arena → h.arena + 65536 < 2 ^ 64 → IsHeap (init h) (free_cell 65504 ∷ [])
unfolding init Chain AreSized AreJoined extent used_bytes free_bytes
init-IsHeap h pos below = record {
  placed = pos;
  below_top = below;
  first = refl;
  chain = (store_self h.blocks h.arena _, tt);
  sized = ((omega arith, omega arith), tt);
  joined = (tt, tt);
  whole = omega arith;
  allocated = refl;
  free = refl;
}

-- A call of the heap.
pub data Op : Type 0 where
  allocates : ℕ → Op
  frees : Ptr → Op

-- The pointers that the heap answers to the calls of kmalloc in a sequence.
unfoldable pub answers : Heap → List Op → List Ptr
answers h [] = []
answers h (allocates size ∷ ops) = let (a, h') = kmalloc h size in a ∷ answers h' ops
answers h (frees ptr ∷ ops) = answers (kfree h ptr) ops

-- A request to the cells: NULL and the cells as they were where it is not served.
unfoldable pub serve : ℕ → Ptr → List Cell → Ptr × List Cell
serve size p cs = elim (served size p cs) [ none ↦ (null, cs) | some r ↦ r ]

serve-none :
    (size : ℕ) (p : Ptr) (cs : List Cell) → served size p cs ≡ none → serve size p cs ≡ (null, cs)
unfolding serve
serve-none size p cs e = ground arith

serve-some :
    (size : ℕ) (p : Ptr) (cs : List Cell) (r : Ptr × List Cell)
    → served size p cs ≡ some r
    → serve size p cs ≡ r
unfolding serve
serve-some size p cs r e = ground arith

-- The same for the cells of an arena at `p`.
unfoldable pub cell_answers : Ptr → List Cell → List Op → List Ptr
cell_answers p cs [] = []
cell_answers p cs (allocates size ∷ ops) =
    let (a, ds) = serve size p cs in a ∷ cell_answers p ds ops
cell_answers p cs (frees ptr ∷ ops) = cell_answers p (give ptr p cs) ops

answers_refine :
    (h : Heap) (cs : List Cell) (p : Ptr) (ops : List Op)
    → IsHeap h cs
    → h.arena ≡ p
    → answers h ops ≡ cell_answers p cs ops
unfolding answers cell_answers
answers_refine h cs p [] v at = refl
answers_refine h cs p (frees ptr ∷ ops) v at =
    answers_refine (kfree h ptr) (give ptr p cs) p ops (rw (← at) (kfree_gives ptr v))
      (kfree-arena h ptr ∙ at)
answers_refine h cs p (allocates size ∷ ops) v at = elim (kmalloc_cases v size) [
  | inl (same, nothing) ↦
      let miss = serve-none size p cs (ap (λ (x : Ptr). served size x cs) (sym at) ∙ nothing) in
      ap (λ r. r.0 ∷ answers r.1 ops) same
      ∙ ap (λ (xs : List Ptr). null ∷ xs) (answers_refine h cs p ops v at)
      ∙ ap (λ r. r.0 ∷ cell_answers p r.1 ops) (sym miss)
  | inr (ds, a, spec, got, ne, w) ↦
      let hit = serve-some size p cs (a, ds) (ap (λ (x : Ptr). served size x cs) (sym at) ∙ spec) in
      ap₂ (λ (x : Ptr) (xs : List Ptr). x ∷ xs) got
        (answers_refine (kmalloc h size).1 ds p ops w (kmalloc-arena h size ∙ at))
      ∙ ap (λ r. r.0 ∷ cell_answers p r.1 ops) (sym hit)
]

-- From heap_init on, in an arena that is not at 0 and ends below 2^64, every sequence of calls of
-- kmalloc and kfree, on any size and any pointer, is answered as first fit answers it on a list of
-- cells that begins as one free cell.
pub heap_refines :
    (h : Heap) (ops : List Op)
    → 0 < h.arena
    → h.arena + 65536 < 2 ^ 64
    → answers (init h) ops ≡ cell_answers h.arena (free_cell 65504 ∷ []) ops
unfolding init
heap_refines h ops pos below =
    answers_refine (init h) (free_cell 65504 ∷ []) h.arena ops (init-IsHeap h pos below) refl

cells_of : (h : Heap) (cs ds : List Cell) → cs ≡ ds → IsHeap h cs → IsHeap h ds
cells_of h cs ds e v = rw (← e) v

served-take :
    (size : ℕ) (p : Ptr) (cs : List Cell) (r : ℕ × List Cell)
    → served size p cs ≡ some r
    → (take (align_up_safe size) p cs ≡ some r) × (align_up_safe size ≢ 0)
unfolding served
served-take size p cs r h = ground arith

-- In a well-formed heap, to free what kmalloc has just returned restores the blocks, their links,
-- and both counters.
pub kfree-kmalloc :
    {h : Heap} {cs : List Cell} (size : ℕ)
    → IsHeap h cs
    → (kmalloc h size).0 ≢ null
    → IsHeap (kfree (kmalloc h size).1 (kmalloc h size).0) cs
kfree-kmalloc {h} {cs} size v ne = elim (kmalloc_cases v size) [
  | inl (same, nothing) ↦ absurd (ne (ap (λ r. r.0) same))
  | inr (ds, a, spec, got, some_ptr, w) ↦
      let (taken, pos) = served-take size h.arena cs (a, ds) spec in
      let (back, le) = give-take (align_up_safe size) h.arena cs a ds v.joined taken in
      cells_of (kfree (kmalloc h size).1 (kmalloc h size).0)
        (give (kmalloc h size).0 (kmalloc h size).1.arena ds) cs
        (ap₂ (λ (x p : Ptr). give x p ds) got (kmalloc-arena h size) ∙ back)
        (kfree_gives (kmalloc h size).0 w)
]

take_bounds :
    (n : ℕ) (p : Ptr) (cs : List Cell) (a : ℕ) (ds : List Cell)
    → take n p cs ≡ some (a, ds)
    → AreSized cs
    → (p + 32 ≤ a) × (a + n ≤ p + extent cs) × (p % 16 ≡ 0 → a % 16 ≡ 0)
unfolding take extent AreSized
take_bounds n p [] a ds t z = ground arith
take_bounds n p (c ∷ cs) a ds t z = elim (Bool-cases (not c.used && leb n c.size)) [
  | inl here ↦
      let at : p + 32 ≡ a = ground arith in
      (omega (arith, at), ground (arith, at), λ h. omega (arith, at, h))
  | inr further ↦ elim (Option-cases (take n (p + 32 + c.size) cs)) [
    | inl none_there ↦ absurd (ground arith)
    | inr ((b, es), found) ↦
        let at : b ≡ a = ground arith in
        let (low, high, round) = take_bounds n (p + 32 + c.size) cs b es found z.1 in
        let even : p % 16 ≡ 0 → b % 16 ≡ 0 = λ h. round (omega (arith, h, z.0.1)) in
        (omega (arith, at), omega (arith, at), λ h. omega (arith, at, even h))
  ]
]

-- In a well-formed heap, what kmalloc returns lies in the arena with all the bytes that were asked
-- for, behind a header, and is a multiple of 16 where the arena's address is.
pub kmalloc_bounds :
    {h : Heap} {cs : List Cell} (size : ℕ)
    → IsHeap h cs
    → (kmalloc h size).0 ≢ null
    → (h.arena + 32 ≤ (kmalloc h size).0)
      × ((kmalloc h size).0 + size ≤ h.arena + 65536)
      × (h.arena % 16 ≡ 0 → (kmalloc h size).0 % 16 ≡ 0)
kmalloc_bounds {h} {cs} size v ne = elim (kmalloc_cases v size) [
  | inl (same, nothing) ↦ absurd (ne (ap (λ r. r.0) same))
  | inr (ds, a, spec, got, some_ptr, w) ↦
      let (taken, pos) = served-take size h.arena cs (a, ds) spec in
      let (low, high, round) = take_bounds (align_up_safe size) h.arena cs a ds taken v.sized in
      let (more, even, le) = aligned_facts size pos in
      (omega (arith, got), omega (arith, got, v.whole), λ e. omega (arith, got, round e))
]
