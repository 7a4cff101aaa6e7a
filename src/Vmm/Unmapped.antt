-- ===== src/Vmm/Unmapped.antt =====
-- vmm_unmap_page undoes vmm_map_page: the translations of the page before and after it.
use batos_os.Prelude.{
  ℕ, ◌+◌, ◌*◌, ◌/◌, ◌%◌, ◌^◌, ◌<◌, ◌≡◌, refl, ap, ◌∙◌, true, false, none, some, arith, Ptr, failed,
  bit_and, bit_and_index, bit_and_offset, bit_and_address, bit_or_offset,
}
use batos_os.Vmm.{
  Vmm, is_present, address_mask, word, level_pt, level_pd, level_pdpt, verify_page_table_root,
  pml4_index, pdpt_index, pd_index, pt_index,
}
use batos_os.Vmm.Map.{Request, page_offset, leaf_entry, map_page, clear_leaf, unmap_page}
use batos_os.Vmm.Walk.{translate, translate_pt}
use batos_os.Vmm.Valid.{IsValid}
use batos_os.Vmm.Words.{Leads, leaf_entry-Leads}
use batos_os.Vmm.Through.{child_found}
use batos_os.Vmm.Mapped.{PathTo, HoldsLeaf, root_found, map_page_works}
use batos_os.Vmm.Paths.{walk_ends}
use batos_os.Vmm.Trips.{root_same, root_kept, path_of_page, same_page}
use batos_os.Vmm.Unmap.{
  HoldsPage, unmap_some, root_level, child_level, after, after_found, after_pmm, after_self,
  after-IsValid, after_child,
}

page_some :
    (s : Vmm) (a o x : ℕ) (pt : Ptr)
    → a % 4096 ≡ 0
    → o < 4096
    → HoldsPage a x s pt
    → translate_pt s (a + o) pt ≡ some (x + o)
unfolding translate_pt
page_some s a o x pt h lt (here, at) =
    let e : word s pt (pt_index (a + o)) ≡ word s pt (pt_index a) =
      ap (word s pt) (same_page a o h lt).3 in
    let off : bit_and (a + o) 4095 ≡ o = omega (arith, bit_and_offset (a + o)) in
    let al : x % 4096 ≡ 0 = omega (arith, at, bit_and_address (word s pt (pt_index a))) in
    rw e (rw at (rw off (ground (arith, here, bit_or_offset x o al lt))))

page_none :
    (s : Vmm) (a o : ℕ) (pt : Ptr)
    → a % 4096 ≡ 0
    → o < 4096
    → word s pt (pt_index a) ≡ 0
    → translate_pt s (a + o) pt ≡ none
unfolding translate_pt
page_none s a o pt h lt z =
    let e : word s pt (pt_index (a + o)) ≡ 0 = ap (word s pt) (same_page a o h lt).3 ∙ z in
    rw e refl

index_lt : (n : ℕ) → bit_and n 511 < 512
index_lt n = omega (arith, bit_and_index n)

abbrev pub EndsAt : Ptr → Vmm → Ptr → Type 0
EndsAt pt s q = q ≡ pt

ends_translate :
    (s : Vmm) (pml4 a o pt : ℕ)
    → failed (verify_page_table_root s pml4) ≡ false
    → a % 4096 ≡ 0
    → o < 4096
    → PathTo (EndsAt pt) pml4 a s
    → translate s pml4 (a + o) ≡ translate_pt s (a + o) pt
ends_translate s pml4 a o pt root al lt here =
    let (end, ne, at, tr, ins, un) =
      walk_ends s pml4 (a + o) root (EndsAt pt) (path_of_page (EndsAt pt) pml4 a o s al lt here) in
    tr ∙ ap (translate_pt s (a + o)) at

leaf_cleared :
    (s : Vmm) (pml4 a pt : ℕ)
    → is_present (word s pt (pt_index a)) ≡ true
    → (clear_leaf s pml4 a pt).0 ≡ some (bit_and (word s pt (pt_index a)) address_mask)
unfolding clear_leaf
leaf_cleared s pml4 a pt h = ground arith

-- What vmm_unmap_page has done when it returns the frame at `x`.
pub record Unmapped (extra : ℕ) (s : Vmm) (pml4 a x : ℕ) (t : Vmm) : Type 0 where
  pub before : (o : ℕ) → o < 4096 → translate s pml4 (a + o) ≡ some (x + o)
  pub since : (o : ℕ) → o < 4096 → translate t pml4 (a + o) ≡ none
  pub pmm : t.pmm ≡ s.pmm
  pub valid : IsValid extra t

-- In a valid state, when vmm_unmap_page returns a frame, vmm_translate took the page's bytes to
-- that frame before and takes none of them anywhere after; the state stays valid, and the frames'
-- allocator as it was.
pub unmap_page_unmaps :
    {extra : ℕ} {s : Vmm} (pml4 a x : ℕ)
    → IsValid extra s
    → (unmap_page s pml4 a).0 ≡ some x
    → Unmapped extra s pml4 a x (unmap_page s pml4 a).1
unmap_page_unmaps {extra} {s} pml4 a x v h =
    let (root, offset, (pdpt, nd, ed, (pd, np, ep, (pt, nt, et, holds)))) =
      unmap_some s pml4 a x h in
    let al : a % 4096 ≡ 0 = omega (arith, offset, bit_and_offset a) in
    let (rr, fr) = root_found s pml4 root in
    let (rd, fd) = child_found s (word s pml4 (pml4_index a)) level_pdpt pml4 pdpt ed nd in
    let (rp, fp) = child_found s (word s pdpt (pdpt_index a)) level_pd pml4 pd ep np in
    let (rt, ft) = child_found s (word s pd (pd_index a)) level_pt pml4 pt et nt in
    let l3 = root_level s pml4 rr root fr in
    let l2 = child_level s (word s pml4 (pml4_index a)) level_pdpt pml4 pdpt rd ed nd fd in
    let l1 = child_level s (word s pdpt (pdpt_index a)) level_pd pml4 pd rp ep np fp in
    let l0 = child_level s (word s pd (pd_index a)) level_pt pml4 pt rt et nt ft in
    let t : Vmm = after s v pml4 a x pt rt ft holds in
    let child = after_child s v pml4 a x pt rt ft holds in
    let path : PathTo (EndsAt pt) pml4 a t = (
      pdpt,
      nd,
      child pml4 rr (pml4_index a) level_pdpt fr (omega arith) (index_lt (a / 2 ^ 39)) ∙ ed,
      (
        pd,
        np,
        child pdpt rd (pdpt_index a) level_pd fd (omega arith) (index_lt (a / 2 ^ 30)) ∙ ep,
        (
          pt,
          nt,
          child pd rp (pd_index a) level_pt fp (omega arith) (index_lt (a / 2 ^ 21)) ∙ et,
          refl,
        ),
      ),
    ) in
    let here : PathTo (EndsAt pt) pml4 a s = (pdpt, nd, ed, (pd, np, ep, (pt, nt, et, refl))) in
    let root_after =
      ap failed (root_same s t pml4 (after_found s v pml4 a x pt rt ft holds pml4)) ∙ root in
    let (end, ne, at, tr, ins, un) = walk_ends s pml4 a root (EndsAt pt) here in
    rw (un offset) (
      rw at (record {
        before =
            λ o lt. ends_translate s pml4 a o pt root al lt here ∙ page_some s a o x pt al lt holds;
        since = λ o lt.
            ends_translate t pml4 a o pt root_after al lt path
            ∙ page_none t a o pt al lt (after_self s v pml4 a x pt rt ft holds);
        pmm = after_pmm s v pml4 a x pt rt ft holds;
        valid = after-IsValid s v pml4 a x pt rt ft holds;
      }))

-- In a valid state, vmm_unmap_page after a vmm_map_page that worked returns the frame that was
-- mapped, with its address cut to 52 bits.
pub unmap-map :
    {extra : ℕ} {s : Vmm} (q : Request)
    → IsValid extra s
    → failed (map_page s q).0 ≡ false
    → (unmap_page (map_page s q).1 q.pml4 q.virtual_address).0 ≡ some (q.physical_address % 2 ^ 52)
unmap-map {extra} {s} q v good =
    let (g, path, fine) = map_page_works q v good in
    let al : page_offset q.virtual_address ≡ 0 = ground arith in
    let pl : q.physical_address % 4096 ≡ 0 = ground (arith, bit_and_offset q.physical_address) in
    let root = root_kept q.pml4 g (ground arith) in
    let (pt, ne, leaf, tr, ins, un) =
      walk_ends (map_page s q).1 q.pml4 q.virtual_address root (HoldsLeaf q) path in
    let le : Leads (leaf_entry q.physical_address q.flags)
        (q.physical_address / 4096 % 2 ^ 40 * 4096) (1 + q.flags / 2 % 4 * 2) =
      leaf_entry-Leads q.physical_address q.flags in
    ap (λ z. z.0) (un al)
    ∙ leaf_cleared (map_page s q).1 q.pml4 q.virtual_address pt (ap is_present leaf ∙ le.present)
    ∙ ap (λ (n : ℕ). some (bit_and n address_mask)) leaf
    ∙ ap (λ (n : ℕ). some n) (omega (arith, le.address))
