-- ===== src/Vmm/Paths.antt =====
-- A walk whose three tables are verified: vmm_translate, vmm_inspect_mapping and vmm_unmap_page all
-- end at its PT.
use batos_os.Prelude.{ℕ, ◌≡◌, ◌≢◌, ap, ◌∙◌, false, arith, Ptr, failed}
use batos_os.Vmm.{
  Vmm, word, level_pt, level_pd, level_pdpt, verify_existing_child_table, verify_page_table_root,
  pml4_index, pdpt_index, pd_index,
}
use batos_os.Vmm.Map.{page_offset, clear_leaf, unmap_page}
use batos_os.Vmm.Walk.{
  translate, translate_pdpt, translate_pd, translate_pt, inspect_mapping, inspect_pdpt, inspect_pd,
  inspect_pt,
}
use batos_os.Vmm.Through.{child_verified}
use batos_os.Vmm.Mapped.{PathTo}

root_ne : (s : Vmm) (pml4 : Ptr) → failed (verify_page_table_root s pml4) ≡ false → pml4 ≢ 0
unfolding verify_page_table_root
root_ne s pml4 h = ground arith

module _ (s : Vmm) (pml4 : Ptr) (a : ℕ) where
  pub translate_at_pd :
      (pd pt : Ptr)
      → pt ≢ 0
      → verify_existing_child_table s (word s pd (pd_index a)) level_pt pml4 ≡ pt
      → (translate_pd s pml4 a pd ≡ translate_pt s a pt)
        × (inspect_pd s pml4 a pd ≡ inspect_pt s a pt)
  unfolding translate_pd inspect_pd
  translate_at_pd pd pt ne e =
      let (here, small, at, good) =
        child_verified s (word s pd (pd_index a)) level_pt pml4 pt e ne in
      (ground (arith, ap (translate_pt s a) e), ground (arith, ap (inspect_pt s a) e))

  pub translate_at_pdpt :
      (pdpt pd : Ptr)
      → pd ≢ 0
      → verify_existing_child_table s (word s pdpt (pdpt_index a)) level_pd pml4 ≡ pd
      → (translate_pdpt s pml4 a pdpt ≡ translate_pd s pml4 a pd)
        × (inspect_pdpt s pml4 a pdpt ≡ inspect_pd s pml4 a pd)
  unfolding translate_pdpt inspect_pdpt
  translate_at_pdpt pdpt pd ne e =
      let (here, small, at, good) =
        child_verified s (word s pdpt (pdpt_index a)) level_pd pml4 pd e ne in
      (ground (arith, ap (translate_pd s pml4 a) e), ground (arith, ap (inspect_pd s pml4 a) e))

  module _ (root : failed (verify_page_table_root s pml4) ≡ false) where
    pub translate_at_root :
        (pdpt : Ptr)
        → pdpt ≢ 0
        → verify_existing_child_table s (word s pml4 (pml4_index a)) level_pdpt pml4 ≡ pdpt
        → (translate s pml4 a ≡ translate_pdpt s pml4 a pdpt)
          × (inspect_mapping s pml4 a ≡ inspect_pdpt s pml4 a pdpt)
    unfolding translate inspect_mapping
    translate_at_root pdpt ne e =
        let (here, small, at, good) =
          child_verified s (word s pml4 (pml4_index a)) level_pdpt pml4 pdpt e ne in
        let pos = root_ne s pml4 root in
        (
          ground (arith, pos, ap (translate_pdpt s pml4 a) e),
          ground (arith, pos, ap (inspect_pdpt s pml4 a) e),
        )

    unmap_at :
        (pdpt pd pt : Ptr)
        → page_offset a ≡ 0
        → pdpt ≢ 0
        → verify_existing_child_table s (word s pml4 (pml4_index a)) level_pdpt pml4 ≡ pdpt
        → pd ≢ 0
        → verify_existing_child_table s (word s pdpt (pdpt_index a)) level_pd pml4 ≡ pd
        → pt ≢ 0
        → verify_existing_child_table s (word s pd (pd_index a)) level_pt pml4 ≡ pt
        → unmap_page s pml4 a ≡ clear_leaf s pml4 a pt
    unfolding unmap_page
    unmap_at pdpt pd pt al nd ed np ep nt et =
        let pos = root_ne s pml4 root in rw ed (rw ep (rw et (ground (arith, pos, al, nd, np, nt))))

    -- What the three functions do at the end of a walk.
    pub walk_ends :
        (Q : Vmm → Ptr → Type 0)
        → PathTo Q pml4 a s
        → (pt : Ptr) × (pt ≢ 0)
          × Q s pt
          × (translate s pml4 a ≡ translate_pt s a pt)
          × (inspect_mapping s pml4 a ≡ inspect_pt s a pt)
          × (page_offset a ≡ 0 → unmap_page s pml4 a ≡ clear_leaf s pml4 a pt)
    walk_ends Q (pdpt, nd, ed, (pd, np, ep, (pt, nt, et, holds))) =
        let t1 = translate_at_root pdpt nd ed in
        let t2 = translate_at_pdpt pdpt pd np ep in
        let t3 = translate_at_pd pd pt nt et in
        (
          pt,
          nt,
          holds,
          t1.0 ∙ t2.0 ∙ t3.0,
          t1.1 ∙ t2.1 ∙ t3.1,
          λ al. unmap_at pdpt pd pt al nd ed np ep nt et,
        )
