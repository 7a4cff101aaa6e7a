-- ===== src/Tests/Memory.antt =====
-- The theorems on the allocator of frames, applied to a memory map of 1 MiB: 640 KiB are usable, of
-- which the bitmap takes the first page, and the rest is reserved.
use batos_os.Prelude.{
  ◌≡◌, ◌≢◌, ◌⊎◌, ◌↔◌, ◌<◌, ◌+◌, ◌^◌, refl, ℕ, true, false, List, [], ◌∷◌, Option, none, some, null,
  arith, mem, store,
}
use batos_os.Pmm
use batos_os.Pmm.{
  Pmm, Entry, highest_address, find_bitmap_location, alloc_frame, free_frame, is_used, first_free,
  is_physical_range_valid,
}
use batos_os.Pmm.Count.{free_below, IsValid}
use batos_os.Pmm.Alloc.{Allocated, alloc_allocates}
use batos_os.Pmm.Free.{frees, Freed, free_frees}
use batos_os.Pmm.Trips.{free-alloc, allocs, frees_at, handed, handed_once}
use batos_os.Pmm.Covers.{IsListed, Covers, range_valid_iff}
use batos_os.Pmm.Build.{bitmap_frames}
use batos_os.Pmm.Init.{Bootable, place, init_overcounts}

abbrev map : List Entry
map =
    record { base = 4096; length = 651264; type = 0 }
    ∷ record { base = 655360; length = 393216; type = 1 }
    ∷ []

abbrev unset : Pmm
unset = record {
  frame_bitmap = null;
  bytes = λ i. 0;
  hhdm_offset = 0;
  bitmap_physical = 0;
  bitmap_size = 0;
  total_frames = 0;
  free_frames = 0;
}

map-Bootable : Bootable map 65536 unset
unfolding highest_address find_bitmap_location
map-Bootable = record {
  bytes = λ i. omega arith;
  top = 1048576;
  ends = (omega arith, (omega arith, tt));
  top_lt = omega arith;
  some_memory = λ e. ground arith;
  placed = λ e. ground arith;
  mapped = λ e. ground arith;
}

abbrev pub pmm : Pmm
pmm = Pmm.init (some map) (some 65536) unset

init_overcounts_example :
    IsValid (bitmap_frames pmm) pmm
    × (0 < bitmap_frames pmm)
    × (pmm.free_frames ≡ free_below pmm pmm.total_frames + bitmap_frames pmm)
init_overcounts_example = init_overcounts map-Bootable

pub valid : IsValid (bitmap_frames pmm) pmm
valid = init_overcounts_example.0

alloc_allocates_example :
    let (a, q) = alloc_frame pmm in
    Allocated (bitmap_frames pmm) pmm a q
    ⊎ ((a ≡ 0) × (q ≡ pmm) × ((g : ℕ) → g < pmm.total_frames → is_used pmm g ≡ true))
alloc_allocates_example = alloc_allocates valid

-- The memory map reserves this frame, which was never handed out, and it is freed all the same.
reserved_frees : frees pmm 655360 ≡ true
unfolding Pmm.init Pmm.build highest_address find_bitmap_location Pmm.fill Pmm.free_usable
    Pmm.free_entry Pmm.bitmap_clear_range Pmm.clear_counted Pmm.bitmap_clear Pmm.bitmap_set_range
    Pmm.bitmap_set Pmm.bitmap_test Pmm.reserve_zero store
reserved_frees = refl

free_frees_example :
    ((frees pmm 655360 ≡ true) × Freed (bitmap_frames pmm) pmm 655360 (free_frame pmm 655360))
    ⊎ ((frees pmm 655360 ≡ false) × (free_frame pmm 655360 ≡ pmm))
free_frees_example = free_frees 655360 valid

-- The first frame that is handed out is frame 2, at 8192.
hands_out : (alloc_frame pmm).0 ≡ 8192
unfolding Pmm.init Pmm.build highest_address find_bitmap_location Pmm.fill Pmm.free_usable
    Pmm.free_entry Pmm.bitmap_clear_range Pmm.clear_counted Pmm.bitmap_clear Pmm.bitmap_set_range
    Pmm.bitmap_set Pmm.bitmap_test Pmm.reserve_zero first_free alloc_frame store
hands_out = refl

handed_nonzero : (alloc_frame pmm).0 ≢ 0
handed_nonzero e = ground (arith, hands_out)

free-alloc_example : free_frame (alloc_frame pmm).1 (alloc_frame pmm).0 ≡ pmm
free-alloc_example = free-alloc valid handed_nonzero

handed_once_example :
    mem (alloc_frame pmm).0 (handed (alloc_frame pmm).1 (allocs ∷ frees_at 12288 ∷ allocs ∷ []))
    ≡ false
handed_once_example =
    handed_once (allocs ∷ frees_at 12288 ∷ allocs ∷ []) valid handed_nonzero
      (λ e. ground (arith, hands_out), tt)

abbrev entries : List (Option Entry)
entries = none ∷ some (record { base = 4096; length = 651264; type = 0 }) ∷ []

abbrev page : ℕ
page = 4096

range_valid_iff_example : (is_physical_range_valid (some entries) 8192 page ≡ true) ↔ (
    (page ≢ 0)
    × (8192 + page < 2 ^ 64)
    × ((e : Entry) × IsListed (some e) entries × Covers 8192 (8192 + page) e))
range_valid_iff_example = range_valid_iff entries 8192 page (omega arith, tt) (omega arith)

-- A map with no usable memory.
abbrev full : List Entry
full = record { base = 0; length = 1048576; type = 1 } ∷ []

nowhere : place full ≡ 0
unfolding find_bitmap_location
nowhere = refl
