-- ===== src/Heap/Refine.antt =====
-- The heap refines the list of cells.
use batos_os.Prelude.{
  ℕ, ◌+◌, ◌%◌, ◌^◌, ◌≤◌, ◌<◌, ◌≡◌, ◌≢◌, refl, sym, ap, ◌∙◌, Bool, true, false, ◌||◌, Option, none,
  some, List, [], ◌∷◌, arith, ◌==◌, if◌then◌else◌, Ptr, null, length, Bool-cases, inl, inr, ◌⊎◌,
  add_u64, sub_u64,
}
use batos_os.Heap.{Heap, align_up_safe, find_fit, splits, take_block, kmalloc}
use batos_os.Heap.Cells.{Cell, take, used_bytes, free_bytes, extent, AreSized, AreJoined}
use batos_os.Heap.Chain.{link, Chain}
use batos_os.Heap.Take.{Taken, find_fit_takes}
use batos_os.Heap.Counts.{take_keeps, length_le, bytes_le}

-- The heap `h` stands for the cells: its blocks are theirs, they fill the arena, no two free ones stand
-- side by side, and its counters count them.
pub record IsHeap (h : Heap) (cs : List Cell) : Type 0 where
  pub placed : 0 < h.arena
  pub below_top : h.arena + 65536 < 2 ^ 64
  pub first : h.first_block ≡ h.arena
  pub chain : Chain h.blocks null h.arena cs
  pub sized : AreSized cs
  pub joined : AreJoined cs
  pub whole : extent cs ≡ 65536
  pub allocated : h.allocated_bytes ≡ used_bytes cs
  pub free : h.free_bytes ≡ free_bytes cs

-- What a request of `size` bytes is served from the cells.
unfoldable pub served : ℕ → Ptr → List Cell → Option (ℕ × List Cell)
served size p cs =
    if (size == 0) || (align_up_safe size == 0) then none else take (align_up_safe size) p cs

pub aligned_facts :
    (size : ℕ)
    → align_up_safe size ≢ 0
    → (0 < align_up_safe size) × (align_up_safe size % 16 ≡ 0) × (size ≤ align_up_safe size)
unfolding align_up_safe
aligned_facts size ne = ground arith

link_some : (cs : List Cell) (p : Ptr) → cs ≢ [] → link p cs ≡ p
link_some [] p ne = absurd (ne refl)
link_some (c ∷ cs) p ne = refl

pub no_extent : extent [] ≡ 0
unfolding extent
no_extent = refl

pub heap_at : (g h : Heap) (cs : List Cell) → g ≡ h → IsHeap h cs → IsHeap g cs
heap_at g h cs e v = rw e v

module _ {h : Heap} {cs : List Cell} (v : IsHeap h cs) (size : ℕ) where
  abbrev n : ℕ
  n = align_up_safe size

  abbrev found : Ptr
  found = find_fit h.blocks h.arena n 2048

  abbrev refused : Bool
  refused = (size == 0) || (n == 0)

  kmalloc_no : refused ≡ true → (kmalloc h size ≡ (null, h)) × (served size h.arena cs ≡ none)
  unfolding kmalloc served
  kmalloc_no bad = (ground arith, ground arith)

  kmalloc_none : refused ≡ false → found ≡ null → kmalloc h size ≡ (null, h)
  unfolding kmalloc
  kmalloc_none good miss =
      let e : find_fit h.blocks h.first_block n 2048 ≡ null =
        ap (λ (x : Ptr). find_fit h.blocks x n 2048) v.first ∙ miss in
      ground (arith, good, e)

  abbrev taken_heap : Heap
  taken_heap = record h {
    blocks = take_block h.blocks found n;
    allocated_bytes = add_u64 h.allocated_bytes (take_block h.blocks found n found).size;
    free_bytes =
        sub_u64 (if splits (h.blocks found) n then sub_u64 h.free_bytes 32 else h.free_bytes)
          (take_block h.blocks found n found).size;
  }

  kmalloc_some : refused ≡ false → found ≢ null → kmalloc h size ≡ (found + 32, taken_heap)
  unfolding kmalloc
  kmalloc_some good hit =
      let e : find_fit h.blocks h.first_block n 2048 ≡ found =
        ap (λ (x : Ptr). find_fit h.blocks x n 2048) v.first in
      rw e (ground (arith, good, hit, v.first, v.placed))

  kmalloc-IsHeap :
      refused ≡ false
      → (ds : List Cell) → Taken h.blocks null h.arena cs n found ds
      → IsHeap taken_heap ds
  kmalloc-IsHeap good ds t =
      let (pos, round, le) = aligned_facts size (ground arith) in
      let (sized, joined, same, fronts) =
        take_keeps n pos round h.arena cs (found + 32) ds v.sized v.joined t.spec in
      let before = bytes_le cs in
      let since = bytes_le ds in
      record {
        placed = v.placed;
        below_top = v.below_top;
        first = v.first;
        chain = t.chain;
        sized = sized;
        joined = joined;
        whole = same ∙ v.whole;
        allocated = omega (arith, v.allocated, t.used, since, same, v.whole);
        free = ground (arith, v.free, t.free, before, v.whole);
      }

  start : Chain h.blocks null h.arena cs
  start = v.chain

  few : length cs ≤ 2048
  few = omega (arith, length_le cs, v.whole)

  link_first : link h.arena cs ≡ h.arena
  link_first = link_some cs h.arena (λ e. absurd (omega (arith, v.whole, no_extent, ap extent e)))

  found_at : found ≡ find_fit h.blocks (link h.arena cs) n 2048
  found_at = ap (λ (x : Ptr). find_fit h.blocks x n 2048) (sym link_first)

  found-Taken :
      (ds : List Cell)
      → Taken h.blocks null h.arena cs n (find_fit h.blocks (link h.arena cs) n 2048) ds
      → Taken h.blocks null h.arena cs n found ds
  found-Taken ds t = rw found_at t

  -- What kmalloc returns, and the heap after it.
  pub kmalloc_cases :
      ((kmalloc h size ≡ (null, h)) × (served size h.arena cs ≡ none))
      ⊎ ((ds : List Cell) × (a : Ptr) × (served size h.arena cs ≡ some (a, ds))
          × ((kmalloc h size).0 ≡ a)
          × (a ≢ null)
          × IsHeap (kmalloc h size).1 ds)
  unfolding served
  kmalloc_cases = elim (Bool-cases refused) [
    | inl bad ↦ inl (kmalloc_no bad)
    | inr good ↦
        let (pos, round, le) = aligned_facts size (ground arith) in
        elim (find_fit_takes h.blocks null h.arena cs n 2048 v.placed pos start
          (omega (arith, v.whole)) few) [
            | inl (miss, nothing) ↦
                inl (kmalloc_none good (found_at ∙ miss), ground (arith, good, nothing))
            | inr (ds, t) ↦
                let u : Taken h.blocks null h.arena cs n found ds = found-Taken ds t in
                let eq = kmalloc_some good (λ e. absurd (omega (arith, u.from, v.placed, e))) in
                inr (
                  ds,
                  found + 32,
                  ground (arith, good, u.spec),
                  ap (λ r. r.0) eq,
                  λ e. absurd (omega arith),
                  heap_at (kmalloc h size).1 taken_heap ds (ap (λ r. r.1) eq)
                      (kmalloc-IsHeap good ds u),
                )
          ]
  ]
