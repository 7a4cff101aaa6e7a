-- ===== src/Heap.antt =====
-- kernel/mm/heap/heap.c: kmalloc and kfree over a list of blocks that are linked both ways in a static
-- arena, and the page that the heap maps. A block's header stands under the block's address; what a
-- caller writes to its payload is not in the model.
pub mod Page
pub mod Cells
pub mod Chain
pub mod Take
pub mod Absorb
pub mod Free
pub mod Give
pub mod Find
pub mod Counts
pub mod Refine
pub mod Release
pub mod Runs
use batos_os.Prelude.{
  ℕ, zero, suc, ◌+◌, ◌-◌, ◌*◌, ◌/◌, ◌^◌, ◌&&◌, ◌||◌, Bool, true, false, not, Option, none, some,
  Ptr, null, Mem, store, add_u64, sub_u64, leb, ltb, ◌==◌, if◌then◌else◌,
}

-- `struct heap_block`, of 32 bytes.
pub record Block : Type 0 where
  pub size : ℕ
  pub state : ℕ
  pub previous : Ptr
  pub next : Ptr

abbrev pub header_size : ℕ
header_size = 32

abbrev pub arena_size : ℕ
arena_size = 65536

abbrev pub min_split_size : ℕ
min_split_size = 32

abbrev pub block_free : ℕ
block_free = 0x4652_4545

abbrev pub block_used : ℕ
block_used = 0x5553_4544

-- The static variables of heap.c, with the address of `heap_arena` and the headers in memory.
pub record Heap : Type 0 where
  pub arena : Ptr
  pub blocks : Mem Block
  pub first_block : Ptr
  pub allocated_bytes : ℕ
  pub free_bytes : ℕ

-- A chain has at most one block for each header that fits in the arena.
abbrev pub max_blocks : ℕ
max_blocks = 2048

-- `(value + 15) & ~15`, or 0 where the sum does not fit.
unfoldable pub align_up_safe : ℕ → ℕ
align_up_safe value = if ltb (2 ^ 64 - 1 - 15) value then 0 else (value + 15) / 16 * 16

abbrev pub block_payload : Ptr → Ptr
block_payload block = block + header_size

unfoldable pub init : Heap → Heap
init h = record h {
  first_block = h.arena;
  blocks = store h.blocks h.arena (record {
    size = arena_size - header_size;
    state = block_free;
    previous = null;
    next = null;
  });
  allocated_bytes = 0;
  free_bytes = arena_size - header_size;
}

abbrev pub fits : Block → ℕ → Bool
fits b size = (b.state == block_free) && leb size b.size

-- The loop of kmalloc up to the block that it takes, for `n` rounds at most.
unfoldable pub find_fit : Mem Block → Ptr → ℕ → ℕ → Ptr
find_fit m block size zero = null
find_fit m block size (suc n) =
    let rest = find_fit m (m block).next size n in
    if block == null then null else if fits (m block) size then block else rest

-- `block->previous = p;` where there is a block.
abbrev pub set_previous : Mem Block → Ptr → Ptr → Mem Block
set_previous m block p =
    if block == null then m else store m block (record (m block) { previous = p })

-- Whether a block is cut in two.
abbrev pub splits : Block → ℕ → Bool
splits b size = leb (header_size + min_split_size) (sub_u64 b.size size)

-- The split of a block behind `size` bytes.
unfoldable pub split_block : Mem Block → Ptr → ℕ → Mem Block
split_block m block size =
    let split = block_payload block + size in
    let m1 = store m split (record {
      size = sub_u64 (sub_u64 (m block).size size) header_size;
      state = block_free;
      previous = block;
      next = (m block).next;
    }) in
    let m2 = set_previous m1 (m1 split).next split in
    store m2 block (record (m2 block) { next = split; size = size })

-- The headers after the loop's body has taken a block.
unfoldable pub take_block : Mem Block → Ptr → ℕ → Mem Block
unfolding split_block
take_block m block size =
    let m1 = if splits (m block) size then split_block m block size else m in
    store m1 block (record (m1 block) { state = block_used })

unfoldable pub kmalloc : Heap → ℕ → Ptr × Heap
kmalloc h size =
    let aligned = align_up_safe size in
    if (size == 0) || (aligned == 0) || (h.first_block == null)
    then (null, h)
    else let block = find_fit h.blocks h.first_block aligned max_blocks in
      if block == null
      then (null, h)
      else let m = take_block h.blocks block aligned in
        let free =
          if splits (h.blocks block) aligned
          then sub_u64 h.free_bytes header_size
          else h.free_bytes in
        (
          block_payload block,
          record h {
            blocks = m;
            allocated_bytes = add_u64 h.allocated_bytes (m block).size;
            free_bytes = sub_u64 free (m block).size;
          },
        )

-- The loop of kfree: the block whose payload is at `ptr`.
unfoldable pub find_block : Mem Block → Ptr → Ptr → ℕ → Ptr
find_block m block ptr zero = null
find_block m block ptr (suc n) =
    let rest = find_block m (m block).next ptr n in
    if block == null then null else if block_payload block == ptr then block else rest

-- The checks of kfree on the block.
abbrev pub may_free : Heap → Ptr → Bool
may_free h block =
    let b = h.blocks block in
    let arena_end = h.arena + arena_size in
    (b.state == block_used)
    && not (ltb (2 ^ 64 - 1 - arena_size) h.arena)
    && not (ltb block h.arena || leb arena_end block)
    && not (b.size == 0)
    && not (ltb (arena_size - header_size) b.size)
    && not (ltb arena_end (block_payload block) || ltb (arena_end - block_payload block) b.size)

-- Whether the block that a link leads to is there and free.
abbrev pub free_at : Mem Block → Ptr → Bool
free_at m block = not (block == null) && ((m block).state == block_free)

-- `block` takes in the block `next` behind it.
unfoldable pub absorb : Mem Block → Ptr → Ptr → Mem Block
absorb m block next =
    let m1 = store m block (record (m block) {
      size = add_u64 (m block).size (add_u64 header_size (m next).size);
      next = (m next).next;
    }) in
    set_previous m1 (m1 block).next block

unfoldable pub merge_next : Mem Block → Ptr → Mem Block
merge_next m block = if free_at m (m block).next then absorb m block (m block).next else m

unfoldable pub merge_previous : Mem Block → Ptr → Mem Block
merge_previous m block =
    if free_at m (m block).previous then absorb m (m block).previous block else m

-- `heap_free_bytes += sizeof(struct heap_block);` for each block taken in.
abbrev pub regained : Bool → ℕ → ℕ
regained merged bytes = if merged then add_u64 bytes header_size else bytes

unfoldable pub kfree : Heap → Ptr → Heap
kfree h ptr =
    if (ptr == null) || (h.first_block == null)
    then h
    else let block = find_block h.blocks h.first_block ptr max_blocks in
      if block == null
      then h
      else if not (may_free h block)
      then h
      else let size = (h.blocks block).size in
        let m1 = store h.blocks block (record (h.blocks block) { state = block_free }) in
        let m2 = merge_next m1 block in
        let m3 = merge_previous m2 block in
        record h {
          blocks = m3;
          allocated_bytes = sub_u64 h.allocated_bytes size;
          free_bytes =
              regained (free_at m2 (m2 block).previous)
                (regained (free_at m1 (m1 block).next) (add_u64 h.free_bytes size));
        }
