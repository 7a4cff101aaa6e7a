-- ===== src/Task/Unmaps.antt =====
-- What task_unmap_stack of kernel/sched/task.c has taken apart when it returns 0.
use batos_os.Prelude.{
  ℕ, ◌+◌, ◌<◌, ◌≡◌, arith, inl, inr, refl, sym, ap, ◌∙◌, Bool-cases, Option-cases, ◌==◌, Ptr, List,
  [], ◌∷◌, none, some, failed, add_u64, ==_refl, false, true,
}
use batos_os.Pmm.{Pmm, free_frame}
use batos_os.Vmm.{Vmm}
use batos_os.Vmm.Map.{unmap_page}
use batos_os.Vmm.Walk.{translate}
use batos_os.Vmm.Alloc.{word_same}
use batos_os.Vmm.Fade.{Fades, Fades-refl, Fades-Fades, translate_fades, unmap_clears}
use batos_os.Kernel.{Task}
use batos_os.Task.Stack.{page_size, owns_frames, unmap_frames, unmap_stack}

-- The frames, freed one after the other.
unfoldable pub free_all : List ℕ → Pmm → Pmm
free_all [] p = p
free_all (frame ∷ frames) p = free_all frames (free_frame p frame)

-- No byte of the pages from `address` on, one for each frame, is translated.
unfoldable pub Gone : Vmm → Ptr → ℕ → List ℕ → Type 0
Gone t space address [] = Unit {0}
Gone t space address (frame ∷ frames) =
    ((o : ℕ) → o < 4096 → translate t space (address + o) ≡ none)
    × Gone t space (add_u64 address page_size) frames

-- The pages of the stack are gone, their frames are freed, and nothing else has come or changed
-- in the page tables but entries that are cleared.
pub record Dismantled (s : Vmm) (space address : ℕ) (frames : List ℕ) (t : Vmm) : Type 0 where
  pub gone : Gone t space address frames
  pub freed : t.pmm ≡ free_all frames s.pmm
  pub fades : Fades s t

-- Only the frames' allocator changes.
with_pmm-Fades : (s : Vmm) (p : Pmm) → Fades s (record s { pmm = p })
with_pmm-Fades s p = record {
  tables = refl;
  words = λ q i. inl (word_same s (record s { pmm = p }) q i refl);
}

none_kept :
    (s t : Vmm) (space a : ℕ) → Fades s t → translate s space a ≡ none → translate t space a ≡ none
none_kept s t space a f h = elim (translate_fades s t f space a) [ inl e ↦ e ∙ h | inr e ↦ e ]

unmap_frames-cons :
    (space address frame : ℕ) (frames : List ℕ) (s : Vmm)
    → failed (unmap_frames space address (frame ∷ frames) s).0 ≡ false
    → let s1 = (unmap_page s space address).1 in
      let s2 = record s1 { pmm = free_frame s1.pmm frame } in
      let rest = unmap_frames space (add_u64 address page_size) frames s2 in
      ((unmap_page s space address).0 ≡ some frame)
      × (failed rest.0 ≡ false)
      × ((unmap_frames space address (frame ∷ frames) s).2 ≡ rest.2)
unfolding unmap_frames
unmap_frames-cons space address frame frames s h =
    let done = unmap_page s space address in
    elim (Option-cases done.0) [
      | inl out ↦ absurd (ground (arith, out))
      | inr (x, got) ↦ elim (Bool-cases (x == frame)) [
        | inr other ↦ absurd (ground (arith, got, other))
        | inl same ↦
            let e : x ≡ frame = ground arith in
            let one : done.0 ≡ some frame = got ∙ ap (λ (n : ℕ). some n) e in
            let s2 : Vmm = record done.1 { pmm = free_frame done.1.pmm frame } in
            let rest = unmap_frames space (add_u64 address page_size) frames s2 in
            let whole : unmap_frames space address (frame ∷ frames) s
                ≡ (rest.0, 0 ∷ rest.1, rest.2) =
              ground (arith, one, ==_refl frame) in
            (one, ap (λ z. failed z.0) (sym whole) ∙ h, ap (λ z. z.2) whole)
      ]
    ]

unmap_frames-nil : (space address : ℕ) (s : Vmm) → (unmap_frames space address [] s).2 ≡ s
unfolding unmap_frames
unmap_frames-nil space address s = refl

unmap_frames-Dismantled :
    (space address : ℕ) (frames : List ℕ) (s : Vmm)
    → failed (unmap_frames space address frames s).0 ≡ false
    → Dismantled s space address frames (unmap_frames space address frames s).2
unfolding Gone free_all
unmap_frames-Dismantled space address [] s h =
    rw (unmap_frames-nil space address s) (record { gone = tt; freed = refl; fades = Fades-refl s })
unmap_frames-Dismantled space address (frame ∷ frames) s h =
    let (one, good, end) = unmap_frames-cons space address frame frames s h in
    let s1 : Vmm = (unmap_page s space address).1 in
    let s2 : Vmm = record s1 { pmm = free_frame s1.pmm frame } in
    let (f1, same, cleared) = unmap_clears s space address frame one in
    let f2 = Fades-Fades f1 (with_pmm-Fades s1 (free_frame s1.pmm frame)) in
    let d = unmap_frames-Dismantled space (add_u64 address page_size) frames s2 good in
    rw end (record {
      gone = (
        λ o lt.
            none_kept s2 (unmap_frames space (add_u64 address page_size) frames s2).2 space
              (address + o) d.fades
              (none_kept s1 s2 space (address + o) (with_pmm-Fades s1 (free_frame s1.pmm frame))
                (cleared o lt)),
        d.gone,
      );
      freed = d.freed ∙ ap (λ p. free_all frames (free_frame p frame)) same;
      fades = Fades-Fades f2 d.fades;
    })

-- When task_unmap_stack returns 0, the pages of the stack were mapped to the task's frames, and
-- are mapped no more, and the frames are freed; the page tables have only lost entries.
pub unmap_stack-Dismantled :
    (task : Task) (s : Vmm)
    → failed (unmap_stack task s).0 ≡ false
    → (owns_frames task.address_space task.kernel_stack_base task.kernel_stack_pages s ≡ true)
      × Dismantled s task.address_space task.kernel_stack_base task.kernel_stack_pages
          (unmap_stack task s).2
unfolding unmap_stack
unmap_stack-Dismantled task s h =
    let space : Ptr = task.address_space in
    let base : ℕ = task.kernel_stack_base in
    let pages : List ℕ = task.kernel_stack_pages in
    elim (Bool-cases (base == 0)) [
      | inl none_there ↦ absurd (ground arith)
      | inr there ↦ elim (Bool-cases (owns_frames space base pages s)) [
        | inr other ↦ absurd (ground arith)
        | inl own ↦
            let good : failed (unmap_frames space base pages s).0 ≡ false = ground arith in
            let end : (unmap_stack task s).2 ≡ (unmap_frames space base pages s).2 = ground arith in
            (own, rw end (unmap_frames-Dismantled space base pages s good))
      ]
    ]
