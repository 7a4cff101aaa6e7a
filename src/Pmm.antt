-- ===== src/Pmm.antt =====
-- kernel/mm/pmm/pmm.c: the allocator of physical frames, over a bitmap with one bit for each frame.
-- Limine's memory map and its offset of the direct map are parameters.
pub mod Bits
pub mod Frames
pub mod Count
pub mod Alloc
pub mod Free
pub mod Trips
pub mod Ranges
pub mod Boot
pub mod Covers
pub mod Build
pub mod Init
use batos_os.Prelude.{
  ℕ, zero, suc, ◌-◌, ◌*◌, ◌/◌, ◌%◌, ◌^◌, ◌&&◌, ◌||◌, Bool, true, false, not, Option, none, some,
  List, [], ◌∷◌, Ptr, null, Mem, store, add_u64, sub_u64, leb, ltb, ◌==◌, if◌then◌else◌, bit_and,
  bit_or,
}

-- `struct limine_memmap_entry`; its type is LIMINE_MEMMAP_USABLE, which is 0, or another.
pub record Entry : Type 0 where
  pub base : ℕ
  pub length : ℕ
  pub type : ℕ

abbrev pub is_usable : Entry → Bool
is_usable e = e.type == 0

-- The static variables of pmm.c, and the bytes that `frame_bitmap` points at.
pub record Pmm : Type 0 where
  pub frame_bitmap : Ptr
  pub bytes : Mem ℕ
  pub hhdm_offset : ℕ
  pub bitmap_physical : ℕ
  pub bitmap_size : ℕ
  pub total_frames : ℕ
  pub free_frames : ℕ

-- The masks of PAGE_MASK as arithmetic.
abbrev pub align_down : ℕ → ℕ
align_down value = value / 4096 * 4096

abbrev pub align_up : ℕ → ℕ
align_up value = align_down (add_u64 value 4095)

abbrev pub is_aligned : ℕ → Bool
is_aligned value = value % 4096 == 0

-- `1U << (frame % 8)`
abbrev pub bit_of : ℕ → ℕ
bit_of frame = 2 ^ (frame % 8)

unfoldable pub bitmap_set : Pmm → ℕ → Pmm
bitmap_set p frame = record p {
  bytes = store p.bytes (frame / 8) (bit_or (p.bytes (frame / 8)) (bit_of frame));
}

unfoldable pub bitmap_clear : Pmm → ℕ → Pmm
bitmap_clear p frame = record p {
  bytes = store p.bytes (frame / 8) (bit_and (p.bytes (frame / 8)) (255 - bit_of frame));
}

unfoldable pub bitmap_test : Pmm → ℕ → ℕ
bitmap_test p frame = bit_and (p.bytes (frame / 8)) (bit_of frame)

-- The C test of what `bitmap_test` returns.
abbrev pub is_used : Pmm → ℕ → Bool
is_used p frame = not (bitmap_test p frame == 0)

-- The loops count the frames that are left.
unfoldable pub bitmap_set_range : Pmm → ℕ → ℕ → Pmm
bitmap_set_range p frame zero = p
bitmap_set_range p frame (suc n) = bitmap_set_range (bitmap_set p frame) (add_u64 frame 1) n

unfoldable pub clear_counted : Pmm → ℕ → Pmm
clear_counted p frame =
    if is_used p frame
    then (let q = bitmap_clear p frame in record q { free_frames = add_u64 q.free_frames 1 })
    else p

unfoldable pub bitmap_clear_range : Pmm → ℕ → ℕ → Pmm
unfolding clear_counted
bitmap_clear_range p frame zero = p
bitmap_clear_range p frame (suc n) = bitmap_clear_range (clear_counted p frame) (add_u64 frame 1) n

-- The whole pages of an entry.
abbrev pub first_byte : Entry → ℕ
first_byte e = align_up e.base

abbrev pub end_byte : Entry → ℕ
end_byte e = align_down (add_u64 e.base e.length)

unfoldable pub find_bitmap_location : List Entry → ℕ → ℕ
find_bitmap_location [] required = 0
find_bitmap_location (e ∷ es) required =
    let rest = find_bitmap_location es required in
    if not (is_usable e)
    then rest
    else if leb (end_byte e) (first_byte e)
    then rest
    else if leb required (end_byte e - first_byte e)
    then first_byte e
    else rest

unfoldable pub highest_address : List Entry → ℕ → ℕ
highest_address [] highest = highest
highest_address (e ∷ es) highest =
    highest_address es
      (if ltb highest (add_u64 e.base e.length) then add_u64 e.base e.length else highest)

-- `for (i = 0; i < n; i++) frame_bitmap[i] = 0xFF;`
unfoldable pub fill : Mem ℕ → ℕ → Mem ℕ
fill bytes zero = bytes
fill bytes (suc n) = store (fill bytes n) n 255

-- The body of the loop that frees the usable memory.
unfoldable pub free_entry : Pmm → Entry → Pmm
free_entry p e =
    if not (is_usable e)
    then p
    else if leb (end_byte e) (first_byte e)
    then p
    else bitmap_clear_range p (first_byte e / 4096) ((end_byte e - first_byte e) / 4096)

unfoldable pub free_usable : Pmm → List Entry → Pmm
free_usable p [] = p
free_usable p (e ∷ es) = free_usable (free_entry p e) es

-- `if (free_frames > 0) free_frames--;`
abbrev pub one_less : Pmm → Pmm
one_less p = record p { free_frames = p.free_frames - 1 }

unfoldable pub reserve_zero : Pmm → Pmm
reserve_zero p = if ltb 0 p.total_frames && not (is_used p 0) then one_less (bitmap_set p 0) else p

-- pmm_init once the bitmap has its place.
unfoldable pub build : Pmm → List Entry → Pmm
unfolding reserve_zero
build p es =
    let filled : Pmm = record p { bytes = fill p.bytes p.bitmap_size; free_frames = 0 } in
    let freed = free_usable filled es in
    reserve_zero
      (bitmap_set_range freed (freed.bitmap_physical / 4096) (align_up freed.bitmap_size / 4096))

-- pmm_init, with the responses of Limine: none where the pointer is NULL.
unfoldable pub init : Option (List Entry) → Option ℕ → Pmm → Pmm
unfolding build
init none offset p = p
init (some es) none p = p
init (some es) (some offset) p =
    let p1 : Pmm = record p {
      hhdm_offset = offset;
      total_frames = add_u64 (highest_address es 0) 4095 / 4096;
    } in
    if p1.total_frames == 0
    then p1
    else let p2 : Pmm = record p1 { bitmap_size = add_u64 p1.total_frames 7 / 8 } in
      let p3 : Pmm = record p2 {
        bitmap_physical = find_bitmap_location es (align_up p2.bitmap_size);
      } in
      if p3.bitmap_physical == 0
      then p3
      else build (record p3 { frame_bitmap = add_u64 p3.bitmap_physical offset }) es

-- The loop of pmm_alloc_frame, with the number of frames that are left.
unfoldable pub first_free : Pmm → ℕ → ℕ → Option ℕ
first_free p frame zero = none
first_free p frame (suc n) =
    let rest = first_free p (suc frame) n in if is_used p frame then rest else some frame

unfoldable pub alloc_frame : Pmm → ℕ × Pmm
alloc_frame p =
    if p.frame_bitmap == null then (0, p) else elim (first_free p 1 (p.total_frames - 1)) [
      | none ↦ (0, p)
      | some frame ↦ (frame * 4096 % 2 ^ 64, one_less (bitmap_set p frame))
    ]

-- Whether a frame holds a part of the bitmap.
abbrev pub in_bitmap : Pmm → ℕ → Bool
in_bitmap p frame =
    leb (p.bitmap_physical / 4096) frame
    && ltb frame (add_u64 (p.bitmap_physical / 4096) (align_up p.bitmap_size / 4096))

unfoldable pub free_frame : Pmm → ℕ → Pmm
free_frame p address =
    if p.frame_bitmap == null
    then p
    else if address == 0
    then p
    else if not (is_aligned address)
    then p
    else if leb p.total_frames (address / 4096)
    then p
    else if not (is_used p (address / 4096))
    then p
    else if in_bitmap p (address / 4096)
    then p
    else let q = bitmap_clear p (address / 4096) in
      record q { free_frames = add_u64 q.free_frames 1 }

unfoldable pub get_used_frames : Pmm → ℕ
get_used_frames p = sub_u64 p.total_frames p.free_frames

-- The scan of pmm_is_physical_range_valid. The loop skips an entry that is NULL.
unfoldable pub in_one_entry : ℕ → ℕ → List (Option Entry) → Bool
in_one_entry physical range_end [] = false
in_one_entry physical range_end (none ∷ es) = in_one_entry physical range_end es
in_one_entry physical range_end (some e ∷ es) =
    let rest = in_one_entry physical range_end es in
    if e.length == 0
    then rest
    else if ltb (2 ^ 64 - 1 - e.length) e.base
    then rest
    else if leb e.base physical && leb range_end (add_u64 e.base e.length)
    then true
    else rest

unfoldable pub is_physical_range_valid : Option (List (Option Entry)) → ℕ → ℕ → Bool
is_physical_range_valid response physical length = if length == 0 then false else elim response [
  | none ↦ false
  | some es ↦
      if ltb (2 ^ 64 - 1 - length) physical
      then false
      else in_one_entry physical (add_u64 physical length) es
]
