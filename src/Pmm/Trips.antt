-- ===== src/Pmm/Trips.antt =====
-- Allocations and frees one after the other.
use batos_os.Prelude.{
  ℕ, ◌-◌, ◌*◌, ◌/◌, ◌%◌, ◌^◌, ◌<◌, ◌≡◌, ◌≢◌, inl, inr, refl, sym, ap, ap₂, ◌∙◌, true, false,
  true≢false, arith, add_u64, Option-cases, List, [], ◌∷◌, mem, Mem,
}
use batos_os.Pmm.{
  Pmm, bitmap_set, bitmap_clear, is_used, first_free, alloc_frame, free_frame, one_less,
}
use batos_os.Pmm.Frames.{clear-set}
use batos_os.Pmm.Count.{free_below_le, IsValid}
use batos_os.Pmm.Alloc.{
  alloc_allocates, alloc_none, alloc_some, first_free-some, free-outside, taken-IsValid,
  taken-Takes, one_taken, page_fits,
}
use batos_os.Pmm.Free.{frees, freed, free_yes, free_no, free_frees}

module _ {extra : ℕ} (p : Pmm) (v : IsValid extra p) (f : ℕ) (lt : f < p.total_frames)
    (free : is_used p f ≡ false) (pos : 0 < f) where
  abbrev took : Pmm
  took = one_less (bitmap_set p f)

  back : freed took f ≡ p
  unfolding bitmap_set bitmap_clear
  back =
      let n : add_u64 took.free_frames 1 ≡ p.free_frames = omega (
        arith,
        one_taken p v f lt free,
        v.counted,
        v.total_le,
        v.extra_le,
        free_below_le p p.total_frames,
      ) in
      ap₂ (λ (b : Mem ℕ) (m : ℕ). record p { bytes = b; free_frames = m })
        (clear-set p f v.bytes free) n

  took-frees : frees took (f * 4096 % 2 ^ 64) ≡ true
  unfolding bitmap_set
  took-frees =
      let fits = page_fits p v f lt free in
      ground (arith, fits, taken-Takes p v f lt free f, free-outside p v f lt free)

  returns : free_frame took (f * 4096 % 2 ^ 64) ≡ p
  returns =
      let at : f * 4096 % 2 ^ 64 / 4096 ≡ f = omega (arith, page_fits p v f lt free) in
      free_yes took (taken-IsValid p v f lt free) (f * 4096 % 2 ^ 64) took-frees
      ∙ ap (freed took) at
      ∙ back

-- In a valid allocator, to free a frame just allocated restores the allocator byte for byte.
pub free-alloc :
    {extra : ℕ} {p : Pmm}
    → IsValid extra p
    → (alloc_frame p).0 ≢ 0
    → free_frame (alloc_frame p).1 (alloc_frame p).0 ≡ p
free-alloc {extra} {p} v ne = elim (Option-cases (first_free p 1 (p.total_frames - 1))) [
  | inl e ↦ absurd (ne (ap (λ r. r.0) (alloc_none p v.mapped e)))
  | inr (f, e) ↦
      let (pos, lt, free, below) = first_free-some p 1 (p.total_frames - 1) f e in
      rw (alloc_some p f v.mapped e) (returns p v f (omega arith) free pos)
]

-- In a valid allocator, a second free of an address does nothing.
pub free-free :
    {extra : ℕ} {p : Pmm} (a : ℕ) → IsValid extra p → free_frame (free_frame p a) a ≡ free_frame p a
free-free {p = p} a v = elim (free_frees a v) [
  | inr ignored ↦ rw ignored.1 ignored.1
  | inl done ↦ free_no (free_frame p a) done.1.valid a (ground (arith, done.1.clears (a / 4096)))
]

-- A call of the allocator.
pub data Op : Type 0 where
  allocs : Op
  frees_at : ℕ → Op

-- The addresses that a sequence of calls is handed.
unfoldable pub handed : Pmm → List Op → List ℕ
handed p [] = []
handed p (allocs ∷ ops) = let (a, q) = alloc_frame p in a ∷ handed q ops
handed p (frees_at a ∷ ops) = handed (free_frame p a) ops

-- No call frees the page at `a`.
abbrev pub Keeps : ℕ → List Op → Type 0
Keeps a [] = Unit {0}
Keeps a (allocs ∷ ops) = Keeps a ops
Keeps a (frees_at b ∷ ops) = (b ≢ a) × Keeps a ops

handed-used :
    {extra : ℕ} (p : Pmm) (f : ℕ) (ops : List Op)
    → IsValid extra p
    → 0 < f
    → is_used p f ≡ true
    → Keeps (f * 4096) ops
    → mem (f * 4096) (handed p ops) ≡ false
unfolding mem handed
handed-used p f [] v pos used keeps = refl
handed-used p f (allocs ∷ ops) v pos used keeps = elim (alloc_allocates v) [
  | inl done ↦
      let other : done.frame ≢ f =
        λ e. true≢false (sym used ∙ sym (ap (is_used p) e) ∙ done.was_free) in
      let still : is_used (alloc_frame p).1 f ≡ true = rw (done.takes f) (ground (arith, used)) in
      ground (arith, done.at, handed-used (alloc_frame p).1 f ops done.valid pos still keeps)
  | inr (zero_address, same, full) ↦
      rw same (ground (arith, zero_address, handed-used p f ops v pos used keeps))
]
handed-used p f (frees_at b ∷ ops) v pos used keeps = elim (free_frees b v) [
  | inl (ok, done) ↦
      let other : b / 4096 ≢ f = ground (arith, keeps.0) in
      let still : is_used (free_frame p b) f ≡ true = rw (done.clears f) (ground (arith, used)) in
      handed-used (free_frame p b) f ops done.valid pos still keeps.1
  | inr (ignored, same) ↦ rw same (handed-used p f ops v pos used keeps.1)
]

-- In a valid allocator, no sequence of allocations and frees hands a frame out again before it is
-- freed.
pub handed_once :
    {extra : ℕ} {p : Pmm} (ops : List Op)
    → IsValid extra p
    → (alloc_frame p).0 ≢ 0
    → Keeps (alloc_frame p).0 ops
    → mem (alloc_frame p).0 (handed (alloc_frame p).1 ops) ≡ false
handed_once {extra} {p} ops v ne keeps = elim (alloc_allocates v) [
  | inr (zero_address, same, full) ↦ absurd (ne zero_address)
  | inl done ↦ rw done.at (
      handed-used (alloc_frame p).1 done.frame ops done.valid done.pos
        (rw (done.takes done.frame) (ground arith)) (rw (← done.at) keeps))
]
