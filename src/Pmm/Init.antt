-- ===== src/Pmm/Init.antt =====
-- What pmm_init establishes.
use batos_os.Prelude.{
  ℕ, ◌+◌, ◌/◌, ◌^◌, ◌≤◌, ◌<◌, ◌≡◌, ◌≢◌, refl, ap, arith, null, add_u64, List, some,
}
use batos_os.Pmm.{
  Pmm, Entry, is_usable, first_byte, end_byte, align_up, align_down, bitmap_set, bitmap_test,
  is_used, bitmap_set_range, find_bitmap_location, highest_address, fill, free_usable, reserve_zero,
  build, one_less, in_bitmap, alloc_frame,
}
use batos_os.Pmm
use batos_os.Pmm.Frames.{AreBytes}
use batos_os.Pmm.Count.{free_below, IsValid}
use batos_os.Pmm.Boot.{EndsBy, highest_address-EndsBy, highest_address_lt}
use batos_os.Pmm.Build.{Placed, bitmap_frames, some_frame, built-SameLayout, build-IsValid}

-- The frames that the map describes, and the bytes of their bitmap.
abbrev pub described : List Entry → ℕ
described es = add_u64 (highest_address es 0) 4095 / 4096

abbrev pub bitmap_bytes : List Entry → ℕ
bitmap_bytes es = add_u64 (described es) 7 / 8

abbrev pub place : List Entry → ℕ
place es = find_bitmap_location es (align_up (bitmap_bytes es))

-- What pmm_init relies on: bytes in memory; a memory map that describes some memory, ends a page
-- below 2^64, and has a place for the bitmap; and a direct map that does not put it at address 0.
pub record Bootable (es : List Entry) (offset : ℕ) (p : Pmm) : Type 0 where
  pub bytes : AreBytes p.bytes
  pub top : ℕ
  pub ends : EndsBy top es
  pub top_lt : top + 4096 < 2 ^ 64
  pub some_memory : highest_address es 0 ≢ 0
  pub placed : place es ≢ 0
  pub mapped : add_u64 (place es) offset ≢ null

abbrev found : List Entry → ℕ → Pmm → Pmm
found es offset p = record p {
  hhdm_offset = offset;
  total_frames = described es;
  bitmap_size = bitmap_bytes es;
  bitmap_physical = place es;
  frame_bitmap = add_u64 (place es) offset;
}

module _ {es : List Entry} {offset : ℕ} {p : Pmm} (b : Bootable es offset p) where
  highest_le : highest_address es 0 ≤ b.top
  highest_le = highest_address_lt es 0 b.top b.ends (omega arith)

  init_eq : Pmm.init (some es) (some offset) p ≡ build (found es offset p) es
  unfolding Pmm.init
  init_eq = ground (arith, b.some_memory, b.placed, b.top_lt, highest_le)

  found-Placed : Placed (found es offset p) es (highest_address es 0)
  found-Placed = record {
    mapped = b.mapped;
    bytes = b.bytes;
    ends = highest_address-EndsBy es 0 b.top b.ends b.top_lt;
    top_lt = omega (arith, highest_le, b.top_lt);
    total = omega (arith, highest_le, b.top_lt);
    total_pos = omega (arith, highest_le, b.top_lt, b.some_memory);
    size = omega (arith, highest_le, b.top_lt);
    place = refl;
    place_pos = b.placed;
  }

IsValid-cast : {m n : ℕ} {p : Pmm} → m ≡ n → IsValid n p → IsValid m p
IsValid-cast e v = rw e v

-- With a place for its bitmap, in a map that ends a page below 2^64, pmm_init leaves a valid
-- bitmap with frame 0 and its own frames in use, but counts its own frames as free.
pub init_overcounts :
    {es : List Entry} {offset : ℕ} {p : Pmm}
    → Bootable es offset p
    → let q = Pmm.init (some es) (some offset) p in
      IsValid (bitmap_frames q) q
      × (0 < bitmap_frames q)
      × (q.free_frames ≡ free_below q q.total_frames + bitmap_frames q)
init_overcounts {es} {offset} {p} b =
    let w = found-Placed b in
    let f = found es offset p in
    let same : bitmap_frames (build f es) ≡ bitmap_frames f =
      ap (λ (n : ℕ). align_up n / 4096) (built-SameLayout f es _ w).bitmap_size in
    let v = IsValid-cast same (build-IsValid f es _ w) in
    rw (init_eq b) (v, omega (arith, same, some_frame f es _ w), v.counted)

-- Where the memory map has no place for the bitmap, pmm_init leaves the allocator down: the
-- allocation that follows returns 0.
pub init_unplaced :
    (es : List Entry) (offset : ℕ) (p : Pmm)
    → p.frame_bitmap ≡ null
    → place es ≡ 0
    → (alloc_frame (Pmm.init (some es) (some offset) p)).0 ≡ 0
unfolding Pmm.init alloc_frame
init_unplaced es offset p fresh nowhere = ground arith
