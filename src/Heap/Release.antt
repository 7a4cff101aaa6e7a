-- ===== src/Heap/Release.antt =====
-- kfree refines the return of a cell.
use batos_os.Prelude.{
  ◌+◌, ◌<◌, ◌≡◌, ◌≢◌, refl, sym, ap, ◌∙◌, List, [], ◌∷◌, arith, ◌==◌, Ptr, null, Mem, Bool-cases,
  inl, inr, add_u64, sub_u64,
}
use batos_os.Heap.{Heap, Block, block_free, find_block, kfree, free_at, regained}
use batos_os.Heap.Cells.{Cell, give, extent}
use batos_os.Heap.Free.{unmarked}
use batos_os.Heap.Give.{Given, two_steps, released}
use batos_os.Heap.Find.{Held, Search, find_block-Search}
use batos_os.Heap.Counts.{give_keeps, length_le, bytes_le}
use batos_os.Heap.Refine.{IsHeap, heap_at, no_extent}

-- No payload starts below the first header's end.
give_low : (ptr p : Ptr) (cs : List Cell) → ptr < p + 32 → give ptr p cs ≡ cs
unfolding give
give_low ptr p [] lt = refl
give_low ptr p (c ∷ cs) lt =
    ground (arith, ap (λ xs. c ∷ xs) (give_low ptr (p + 32 + c.size) cs (omega arith)))

heap-Search :
    (h : Heap) (cs : List Cell)
    → IsHeap h cs
    → (ptr : Ptr) → Search h.blocks null h.arena cs ptr (find_block h.blocks h.arena ptr 2048)
heap-Search h [] v ptr = absurd (omega (arith, v.whole, no_extent))
heap-Search h (c ∷ cs) v ptr =
    find_block-Search h.blocks h.arena c cs ptr 2047 v.placed (omega (arith, v.whole)) v.sized
      v.joined (omega (arith, length_le (c ∷ cs), v.whole)) v.chain

module _ {h : Heap} {cs : List Cell} (v : IsHeap h cs) (ptr : Ptr) (some_ptr : ptr ≢ null) where
  abbrev m : Mem Block
  m = h.blocks

  abbrev b : Ptr
  b = find_block m h.arena ptr 2048

  searched : find_block m h.first_block ptr 2048 ≡ b
  searched = ap (λ (x : Ptr). find_block m x ptr 2048) v.first

  kfree_unknown : b ≡ null → kfree h ptr ≡ h
  unfolding kfree
  kfree_unknown miss = ground (arith, searched, miss)

  kfree_idle : (m b).state ≡ block_free → kfree h ptr ≡ h
  unfolding kfree
  kfree_idle idle = rw searched (ground (arith, idle))

  abbrev freed_heap : Heap
  freed_heap = record h {
    blocks = released m b;
    allocated_bytes = sub_u64 h.allocated_bytes (m b).size;
    free_bytes =
        regained (free_at (two_steps m b) (two_steps m b b).previous) (
          regained (free_at (unmarked m b) (unmarked m b b).next)
            (add_u64 h.free_bytes (m b).size));
  }

  kfree-Held : Held m h.arena cs ptr b → kfree h ptr ≡ freed_heap
  unfolding kfree
  kfree-Held held = rw searched (
      ground (
        arith, held.state, held.from, held.upto, held.sized, v.whole, v.placed, v.below_top,
        v.first, some_ptr,
      ))

  freed-IsHeap : (es : List Cell) → Given m null h.arena cs ptr b es → IsHeap freed_heap es
  freed-IsHeap es g =
      let (sized, joined, same) = give_keeps ptr h.arena cs v.sized v.joined in
      let spec = g.spec in
      let before = bytes_le cs in
      let since = bytes_le es in
      let extents : extent es ≡ 65536 = ap extent (sym spec) ∙ same ∙ v.whole in
      record {
        placed = v.placed;
        below_top = v.below_top;
        first = v.first;
        chain = g.chain;
        sized = rw (← spec) sized;
        joined = rw (← spec) joined;
        whole = extents;
        allocated = omega (arith, v.allocated, g.used, before, v.whole);
        free = ground (arith, v.free, g.free, since, extents);
      }

  searches : Search m null h.arena cs ptr b
  searches = heap-Search h cs v ptr

  pub kfree_some : IsHeap (kfree h ptr) (give ptr h.arena cs)
  kfree_some = elim searches [
    | inl (miss, same) ↦ rw same (heap_at (kfree h ptr) h cs (kfree_unknown miss) v)
    | inr (inl (hit, idle, same)) ↦ rw same (heap_at (kfree h ptr) h cs (kfree_idle idle) v)
    | inr (inr (held, (es, g))) ↦
        rw g.spec (heap_at (kfree h ptr) freed_heap es (kfree-Held held) (freed-IsHeap es g))
  ]

kfree-null : (h : Heap) → kfree h null ≡ h
unfolding kfree
kfree-null h = refl

-- On every address, kfree does what the return of a cell does.
pub kfree_gives :
    {h : Heap} {cs : List Cell} (ptr : Ptr)
    → IsHeap h cs
    → IsHeap (kfree h ptr) (give ptr h.arena cs)
kfree_gives {h} {cs} ptr v = elim (Bool-cases (ptr == null)) [
  | inl zero_ptr ↦
      let e : ptr ≡ null = ground arith in
      rw e
        (rw (give_low null h.arena cs (omega arith)) (heap_at (kfree h null) h cs (kfree-null h) v))
  | inr other ↦ kfree_some v ptr (ground arith)
]
