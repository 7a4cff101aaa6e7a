-- ===== src/Tests/Heaps.antt =====
-- The theorems on the kernel heap, applied to an arena at 1 MiB.
use batos_os.Prelude.{◌+◌, ◌%◌, ◌≡◌, ◌≤◌, refl, List, [], ◌∷◌, null, arith, store}
use batos_os.Heap
use batos_os.Heap.{
  Heap, Block, align_up_safe, find_fit, split_block, take_block, kmalloc, find_block, absorb,
  merge_next, merge_previous, kfree,
}
use batos_os.Heap.Cells.{free_cell}
use batos_os.Heap.Refine.{IsHeap}
use batos_os.Heap.Runs.{
  Op, allocates, frees, answers, cell_answers, init-IsHeap, heap_refines, kfree-kmalloc,
  kmalloc_bounds,
}

abbrev unset : Heap
unset = record {
  arena = 0x10_0000;
  blocks = λ p. record { size = 0; state = 0; previous = null; next = null };
  first_block = null;
  allocated_bytes = 0;
  free_bytes = 0;
}

abbrev ready : Heap
ready = Heap.init unset

ready-IsHeap : IsHeap ready (free_cell 65504 ∷ [])
ready-IsHeap = init-IsHeap unset (omega arith) (omega arith)

abbrev calls : List Op
calls = allocates 100 ∷ allocates 5 ∷ frees 0x10_0020 ∷ allocates 112 ∷ allocates 70000 ∷ []

heap_refines_example :
    answers (Heap.init unset) calls ≡ cell_answers 0x10_0000 (free_cell 65504 ∷ []) calls
heap_refines_example = heap_refines unset calls (omega arith) (omega arith)

-- The pointers: the third request takes the room that the first gave back, and the last is too large.
calls_run : answers ready calls ≡ 0x10_0020 ∷ 0x10_00b0 ∷ 0x10_0020 ∷ null ∷ []
unfolding Heap.init answers kmalloc kfree align_up_safe find_fit split_block take_block find_block
    absorb merge_next merge_previous store
calls_run = refl

ready_serves : (kmalloc ready 100).0 ≡ 0x10_0020
unfolding Heap.init kmalloc align_up_safe find_fit store
ready_serves = refl

kfree-kmalloc_example :
    IsHeap (kfree (kmalloc ready 100).1 (kmalloc ready 100).0) (free_cell 65504 ∷ [])
kfree-kmalloc_example =
    kfree-kmalloc 100 ready-IsHeap (λ e. absurd (omega (arith, e, ready_serves)))

kmalloc_bounds_example :
    (ready.arena + 32 ≤ (kmalloc ready 100).0)
    × ((kmalloc ready 100).0 + 100 ≤ ready.arena + 65536)
    × (ready.arena % 16 ≡ 0 → (kmalloc ready 100).0 % 16 ≡ 0)
kmalloc_bounds_example =
    kmalloc_bounds 100 ready-IsHeap (λ e. absurd (omega (arith, e, ready_serves)))
