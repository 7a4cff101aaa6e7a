-- ===== src/Vmm/Fade.antt =====
-- Page tables in which entries have been cleared: what the walks still find, and what
-- vmm_unmap_page has cleared.
use batos_os.Prelude.{
  ℕ, ◌+◌, ◌%◌, ◌<◌, ◌≡◌, ◌⊎◌, inl, inr, refl, ap, ◌∙◌, true, false, none, some, arith, ◌==◌, ◌*◌,
  Ptr, Bool-cases, failed, bit_and, bit_and_offset, store,
}
use batos_os.Vmm.{
  Vmm, is_present, is_huge, address_mask, word, set_word, level_pt, level_pd, level_pdpt,
  find_page_table_record, verify_existing_child_table, verify_page_table_root, pml4_index,
  pdpt_index, pd_index, pt_index,
}
use batos_os.Vmm.Map.{clear_leaf, unmap_page}
use batos_os.Vmm.Walk.{translate, translate_pdpt, translate_pd, translate_pt}
use batos_os.Vmm.Records.{lookup}
use batos_os.Vmm.Alloc.{find_same}
use batos_os.Vmm.Through.{verify_same}
use batos_os.Vmm.Mapped.{PathTo}
use batos_os.Vmm.Paths.{translate_at_root, translate_at_pdpt, translate_at_pd, walk_ends}
use batos_os.Vmm.Trips.{root_same, same_page, path_of_page}
use batos_os.Vmm.Unmap.{unmap_some}
use batos_os.Vmm.Unmapped.{EndsAt}

-- `t` has the registry of `s`, and each of its words is that of `s` or 0.
pub record Fades (s t : Vmm) : Type 0 where
  pub tables : t.page_table_records ≡ s.page_table_records
  pub words : (q : Ptr) (i : ℕ) → (word t q i ≡ word s q i) ⊎ (word t q i ≡ 0)

pub Fades-refl : (s : Vmm) → Fades s s
Fades-refl s = record { tables = refl; words = λ q i. inl refl }

pub Fades-Fades : {s t u : Vmm} → Fades s t → Fades t u → Fades s u
Fades-Fades f g = record {
  tables = g.tables ∙ f.tables;
  words = λ q i. elim (g.words q i) [
    | inr z ↦ inr z
    | inl e ↦ elim (f.words q i) [ inl d ↦ inl (e ∙ d) | inr z ↦ inr (e ∙ z) ]
  ];
}

module _ (s t : Vmm) (f : Fades s t) where
  found_same : (q : Ptr) → find_page_table_record t q ≡ find_page_table_record s q
  found_same q = find_same s t q (ap (λ rs. lookup rs q) f.tables)

  child_same :
      (e l : ℕ) (p : Ptr)
      → verify_existing_child_table t e l p ≡ verify_existing_child_table s e l p
  unfolding verify_existing_child_table
  child_same e l p =
      let c : Ptr = bit_and e address_mask in rw (verify_same s t c l p (found_same c)) refl

  module _ (pml4 : Ptr) (a : ℕ) where
    pt_fades :
        (pt : Ptr) → (translate_pt t a pt ≡ translate_pt s a pt) ⊎ (translate_pt t a pt ≡ none)
    unfolding translate_pt
    pt_fades pt = elim (f.words pt (pt_index a)) [
      | inl e ↦ inl (rw e refl)
      | inr z ↦ inr (rw z refl)
    ]

    pd_fades :
        (pd : Ptr)
        → (translate_pd t pml4 a pd ≡ translate_pd s pml4 a pd) ⊎ (translate_pd t pml4 a pd ≡ none)
    unfolding translate_pd
    pd_fades pd = elim (f.words pd (pd_index a)) [
      | inr z ↦ inr (rw z refl)
      | inl same ↦
          let e : ℕ = word s pd (pd_index a) in
          let c : Ptr = verify_existing_child_table s e level_pt pml4 in
          elim (pt_fades c) [
            | inl below ↦ inl (rw same (rw (child_same e level_pt pml4) (rw below refl)))
            | inr gone ↦ elim (Bool-cases (is_huge e)) [
              | inl big ↦ inl (rw same (ground (arith, big)))
              | inr small ↦
                  inr (rw same (rw (child_same e level_pt pml4) (ground (arith, gone, small))))
            ]
          ]
    ]

    pdpt_fades :
        (pdpt : Ptr)
        → (translate_pdpt t pml4 a pdpt ≡ translate_pdpt s pml4 a pdpt)
          ⊎ (translate_pdpt t pml4 a pdpt ≡ none)
    unfolding translate_pdpt
    pdpt_fades pdpt = elim (f.words pdpt (pdpt_index a)) [
      | inr z ↦ inr (rw z refl)
      | inl same ↦
          let e : ℕ = word s pdpt (pdpt_index a) in
          let c : Ptr = verify_existing_child_table s e level_pd pml4 in
          elim (pd_fades c) [
            | inl below ↦ inl (rw same (rw (child_same e level_pd pml4) (rw below refl)))
            | inr gone ↦ elim (Bool-cases (is_huge e)) [
              | inl big ↦ inl (rw same (ground (arith, big)))
              | inr small ↦
                  inr (rw same (rw (child_same e level_pd pml4) (ground (arith, gone, small))))
            ]
          ]
    ]

    pub translate_fades : (translate t pml4 a ≡ translate s pml4 a) ⊎ (translate t pml4 a ≡ none)
    unfolding translate
    translate_fades = elim (f.words pml4 (pml4_index a)) [
      | inr z ↦ inr (rw z (ground arith))
      | inl same ↦
          let e : ℕ = word s pml4 (pml4_index a) in
          let c : Ptr = verify_existing_child_table s e level_pdpt pml4 in
          let root = root_same s t pml4 (found_same pml4) in
          elim (pdpt_fades c) [
            | inl below ↦
                inl (rw root (rw same (rw (child_same e level_pdpt pml4) (rw below refl))))
            | inr gone ↦
                inr (rw root (rw same (rw (child_same e level_pdpt pml4) (ground (arith, gone)))))
          ]
    ]

-- A walk of `s` that ends at a PT either still does in `t`, or finds nothing.
ends-Fades :
    (s t : Vmm) (f : Fades s t) (pml4 a pt : ℕ)
    → failed (verify_page_table_root s pml4) ≡ false
    → PathTo (EndsAt pt) pml4 a s
    → (translate t pml4 a ≡ translate_pt t a pt) ⊎ (translate t pml4 a ≡ none)
unfolding translate translate_pdpt translate_pd
ends-Fades s t f pml4 a pt root (pdpt, nd, ed, (pd, np, ep, (last, nt, et, at))) =
    let root_t : failed (verify_page_table_root t pml4) ≡ false =
      ap failed (root_same s t pml4 (found_same s t f pml4)) ∙ root in
    elim (f.words pml4 (pml4_index a)) [
      | inr z ↦ inr (rw z (ground arith))
      | inl e4 ↦
          let c4 =
            child_same s t f (word t pml4 (pml4_index a)) level_pdpt pml4
            ∙ ap (λ (e : ℕ). verify_existing_child_table s e level_pdpt pml4) e4
            ∙ ed in
          let t4 = (translate_at_root t pml4 a root_t pdpt nd c4).0 in
          elim (f.words pdpt (pdpt_index a)) [
            | inr z ↦ inr (t4 ∙ rw z refl)
            | inl e3 ↦
                let c3 =
                  child_same s t f (word t pdpt (pdpt_index a)) level_pd pml4
                  ∙ ap (λ (e : ℕ). verify_existing_child_table s e level_pd pml4) e3
                  ∙ ep in
                let t3 = (translate_at_pdpt t pml4 a pdpt pd np c3).0 in
                elim (f.words pd (pd_index a)) [
                  | inr z ↦ inr (t4 ∙ t3 ∙ rw z refl)
                  | inl e2 ↦
                      let c2 =
                        child_same s t f (word t pd (pd_index a)) level_pt pml4
                        ∙ ap (λ (e : ℕ). verify_existing_child_table s e level_pt pml4) e2
                        ∙ et in
                      inl (
                        t4
                        ∙ t3
                        ∙ (translate_at_pd t pml4 a pd last nt c2).0
                        ∙ ap (translate_pt t a) at)
                ]
          ]
    ]

-- What vmm_unmap_page does to the words, whatever the state.
clear_leaf-Fades : (s : Vmm) (pml4 a pt : Ptr) → Fades s (clear_leaf s pml4 a pt).1
unfolding clear_leaf word set_word store
clear_leaf-Fades s pml4 a pt = record {
  tables = ground arith;
  words = λ q i. elim (Bool-cases (is_present (word s pt (pt_index a)))) [
    | inr absent ↦ inl (ground (arith, absent))
    | inl here ↦ elim (Bool-cases (pt + 8 * pt_index a == q + 8 * i)) [
      | inl at ↦ inr (ground (arith, here, at))
      | inr off ↦ inl (ground (arith, here, off))
    ]
  ];
}

clear_leaf-clears :
    (s : Vmm) (pml4 a pt : Ptr)
    → is_present (word s pt (pt_index a)) ≡ true
    → word (clear_leaf s pml4 a pt).1 pt (pt_index a) ≡ 0
unfolding clear_leaf word set_word store
clear_leaf-clears s pml4 a pt h = ground (arith, h)

clear_leaf-pmm : (s : Vmm) (pml4 a pt : Ptr) → (clear_leaf s pml4 a pt).1.pmm ≡ s.pmm
unfolding clear_leaf set_word
clear_leaf-pmm s pml4 a pt = ground arith

zero_pt : (t : Vmm) (a pt : ℕ) → word t pt (pt_index a) ≡ 0 → translate_pt t a pt ≡ none
unfolding translate_pt
zero_pt t a pt z = rw z refl

-- When vmm_unmap_page returns a frame, in whatever state, it has only cleared words, and no byte
-- of the page is translated.
pub unmap_clears :
    (s : Vmm) (pml4 a x : ℕ)
    → (unmap_page s pml4 a).0 ≡ some x
    → let t = (unmap_page s pml4 a).1 in
      Fades s t × (t.pmm ≡ s.pmm) × ((o : ℕ) → o < 4096 → translate t pml4 (a + o) ≡ none)
unmap_clears s pml4 a x h =
    let (root, offset, (pdpt, nd, ed, (pd, np, ep, (pt, nt, et, (here, at))))) =
      unmap_some s pml4 a x h in
    let al : a % 4096 ≡ 0 = omega (arith, offset, bit_and_offset a) in
    let path : PathTo (EndsAt pt) pml4 a s = (pdpt, nd, ed, (pd, np, ep, (pt, nt, et, refl))) in
    let (end, ne, last, tr, ins, un) = walk_ends s pml4 a root (EndsAt pt) path in
    let t : Vmm = (clear_leaf s pml4 a pt).1 in
    let f = clear_leaf-Fades s pml4 a pt in
    let whole : unmap_page s pml4 a ≡ clear_leaf s pml4 a pt =
      un offset ∙ ap (clear_leaf s pml4 a) last in
    rw whole (
      f,
      clear_leaf-pmm s pml4 a pt,
      λ o lt.
          let zero_at : word t pt (pt_index (a + o)) ≡ 0 =
            ap (word t pt) (same_page a o al lt).3 ∙ clear_leaf-clears s pml4 a pt here in
          let long = path_of_page (EndsAt pt) pml4 a o s al lt path in
          elim (ends-Fades s t f pml4 (a + o) pt root long) [
            | inl ends ↦ ends ∙ zero_pt t (a + o) pt zero_at
            | inr gone ↦ gone
          ],
    )
