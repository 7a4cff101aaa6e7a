-- ===== src/Task/Backs.antt =====
-- What the first loop of task_map_stack of kernel/sched/task.c has mapped when it gives its frames.
use batos_os.Prelude.{
  ℕ, zero, suc, ◌+◌, ◌/◌, ◌^◌, ◌%◌, ◌<◌, ◌≡◌, ◌≢◌, arith, inl, inr, refl, sym, ap, ◌∙◌, Bool-cases,
  Option-cases, ◌==◌, Ptr, List, [], ◌∷◌, some, failed, add_u64, true, false, length,
}
use batos_os.Pmm.{Pmm, alloc_frame}
use batos_os.Pmm.Alloc.{Allocated, alloc_allocates}
use batos_os.Vmm.{Vmm}
use batos_os.Vmm.Map.{Request, map_page}
use batos_os.Vmm.Walk.{translate}
use batos_os.Vmm.Valid.{IsValid}
use batos_os.Vmm.Alloc.{alloc_frame-total, find_same, word_same}
use batos_os.Vmm.Grow.{Grows}
use batos_os.Vmm.Keeps.{map_keeps, translate_kept}
use batos_os.Vmm.Trips.{map_page-IsValid, map-translate}
use batos_os.Task.Stack.{page_size, map_frames, owns_frames}

-- Each byte of the pages from `address` on is taken to the byte of its frame.
unfoldable pub Backs : Vmm → Ptr → ℕ → List ℕ → Type 0
Backs s space address [] = Unit {0}
Backs s space address (frame ∷ frames) =
    ((o : ℕ) → o < 4096 → translate s space (address + o) ≡ some (frame + o))
    × Backs s space (add_u64 address page_size) frames

-- Every translation of `s` is one of `t`.
abbrev pub Keeps : Vmm → Vmm → Type 0
Keeps s t = (pml4 a x : ℕ) → translate s pml4 a ≡ some x → translate t pml4 a ≡ some x

module _ {extra : ℕ} (s : Vmm) (v : IsValid extra s) (c : Ptr) (pmm : Pmm)
    (done : Allocated extra s.pmm c pmm) (total : pmm.total_frames ≡ s.pmm.total_frames) where
  abbrev with_frame : Vmm
  with_frame = record s { pmm = pmm }

  with_frame-IsValid : IsValid extra with_frame
  with_frame-IsValid = record {
    pmm = done.valid;
    memory_le = omega (arith, total, v.memory_le);
    unique = v.unique;
    aligned = λ q r f. v.aligned q r (sym (find_same s with_frame q refl) ∙ f);
    used = λ q r f.
        ground (arith, done.takes (q / 4096), v.used q r (sym (find_same s with_frame q refl) ∙ f));
    clear = λ q r i f lt absent.
        let same = word_same s with_frame q i refl in
        same ∙ v.clear q r i (sym (find_same s with_frame q refl) ∙ f) lt (rw (← same) absent);
  }

  with_frame-Grows : Grows extra s with_frame
  with_frame-Grows = record {
    valid = with_frame-IsValid;
    kept = λ q r f. find_same s with_frame q refl ∙ f;
    words = λ q r i f lt here. word_same s with_frame q i refl;
    spaces = refl;
    active = refl;
  }

  frame_lt : c < 2 ^ 52
  frame_lt = omega (arith, done.at, done.below, v.memory_le)

-- What the first loop has done when it gives the frames: a valid state, which takes the pages to
-- them, and in which no translation is lost.
pub record Mapped (extra : ℕ) (s : Vmm) (space address : ℕ) (frames : List ℕ) (t : Vmm)
    : Type 0 where
  pub valid : IsValid extra t
  pub backs : Backs t space address frames
  pub keeps : Keeps s t

abbrev page : Ptr → ℕ → ℕ → Request
page space address frame = record {
  pml4 = space;
  virtual_address = address;
  physical_address = frame;
  flags = 2;
}

-- One round of the loop that works, and a rest that has worked.
round_maps :
    {extra : ℕ} (s : Vmm) (space address c : ℕ) (pmm : Pmm) (frames : List ℕ) (t : Vmm)
    → IsValid extra s
    → Allocated extra s.pmm c pmm
    → pmm.total_frames ≡ s.pmm.total_frames
    → failed (map_page (record s { pmm = pmm }) (page space address c)).0 ≡ false
    → Mapped extra
        (map_page (record s { pmm = pmm }) (page space address c)).1
        space
        (add_u64 address page_size)
        frames
        t
    → Mapped extra s space address (c ∷ frames) t
unfolding Backs
round_maps {extra} s space address c pmm frames t v done total good rest =
    let s1 : Vmm = record s { pmm = pmm } in
    let q : Request = page space address c in
    let v1 = with_frame-IsValid s v c pmm done total in
    let g = with_frame-Grows s v c pmm done total in
    let lt = frame_lt s v c pmm done total in
    let cut : c % 2 ^ 52 ≡ c = omega (arith, lt) in
    record {
      valid = rest.valid;
      backs = (
        λ o below.
            rest.keeps space (address + o) (c + o)
              (map-translate q o v1 good below ∙ ap (λ (n : ℕ). some (n + o)) cut),
        rest.backs,
      );
      keeps = λ pml4 a x h.
          rest.keeps pml4 a x (map_keeps q pml4 a v1 (translate_kept s s1 g pml4 a x h));
    }

-- A round of the loop that gives frames has mapped one, and the rest has given the others.
map_frames-suc :
    (n space address : ℕ) (s : Vmm) (frames : List ℕ)
    → (map_frames (suc n) space address s).0 ≡ some frames
    → let (c, pmm) = alloc_frame s.pmm in
      let (status, s2) = map_page (record s { pmm = pmm }) (page space address c) in
      (c ≢ 0)
      × (failed status ≡ false)
      × ((rest : List ℕ) × (frames ≡ c ∷ rest)
          × ((map_frames n space (add_u64 address page_size) s2).0 ≡ some rest)
          × ((map_frames (suc n) space address s).1
              ≡ (map_frames n space (add_u64 address page_size) s2).1))
unfolding map_frames
map_frames-suc n space address s frames h =
    let c : Ptr = (alloc_frame s.pmm).0 in
    let done = map_page (record s { pmm = (alloc_frame s.pmm).1 }) (page space address c) in
    let more = map_frames n space (add_u64 address page_size) done.1 in
    elim (Bool-cases (c == 0)) [
      | inl out ↦ absurd (ground arith)
      | inr got ↦ elim (Bool-cases (failed done.0)) [
        | inl bad ↦ absurd (ground arith)
        | inr good ↦ elim (Option-cases more.0) [
          | inl stop ↦ absurd (ground arith)
          | inr (rest, e) ↦ (ground arith, good, (rest, ground arith, e, ground arith))
        ]
      ]
    ]

pub map_frames_maps :
    {extra : ℕ} (n space address : ℕ) (s : Vmm) (frames : List ℕ)
    → IsValid extra s
    → (map_frames n space address s).0 ≡ some frames
    → Mapped extra s space address frames (map_frames n space address s).1
unfolding map_frames Backs
map_frames_maps zero space address s [] v h = record {
  valid = v;
  backs = tt;
  keeps = λ pml4 a x e. e;
}
map_frames_maps zero space address s (frame ∷ frames) v h = absurd (ground arith)
map_frames_maps {extra} (suc n) space address s frames v h =
    let (ne, good, (rest, whole, more, end)) = map_frames-suc n space address s frames h in
    let pmm : Pmm = (alloc_frame s.pmm).1 in
    elim (alloc_allocates v.pmm) [
      | inl done ↦
          let total = alloc_frame-total s.pmm in
          let s1 : Vmm = record s { pmm = pmm } in
          let q : Request = page space address (alloc_frame s.pmm).0 in
          let v2 =
            map_page-IsValid q (with_frame-IsValid s v (alloc_frame s.pmm).0 pmm done total) in
          let t : Vmm = (map_frames n space (add_u64 address page_size) (map_page s1 q).1).1 in
          let m =
            map_frames_maps n space (add_u64 address page_size) (map_page s1 q).1 rest v2 more in
          let r = round_maps s space address (alloc_frame s.pmm).0 pmm rest t v done total good m in
          rw whole (rw end r)
      | inr (out, same, full) ↦ absurd (ne out)
    ]

pub Backs-owns_frames :
    (s : Vmm) (space address : ℕ) (frames : List ℕ)
    → Backs s space address frames
    → owns_frames space address frames s ≡ true
unfolding Backs owns_frames
Backs-owns_frames s space address [] b = refl
Backs-owns_frames s space address (frame ∷ frames) (here, rest) =
    let e : translate s space address ≡ some frame =
      ap (translate s space) (omega arith)
      ∙ here 0 (omega arith)
      ∙ ap (λ (n : ℕ). some n) (omega arith) in
    ground (arith, e, Backs-owns_frames s space (add_u64 address page_size) frames rest)

-- The loop gives as many frames as it has rounds.
pub map_frames-length :
    (n address space : ℕ) (s : Vmm) (frames : List ℕ)
    → (map_frames n space address s).0 ≡ some frames
    → length frames ≡ n
unfolding map_frames
map_frames-length zero address space s [] h = refl
map_frames-length zero address space s (frame ∷ frames) h = absurd (ground arith)
map_frames-length (suc n) address space s frames h =
    let (ne, good, (rest, whole, more, end)) = map_frames-suc n space address s frames h in
    let s2 : Vmm =
      (map_page (record s { pmm = (alloc_frame s.pmm).1 })
        (page space address (alloc_frame s.pmm).0)).1 in
    ap length whole ∙ ap suc (map_frames-length n (add_u64 address page_size) space s2 rest more)
