-- ===== src/Vmm/Keeps.antt =====
-- Which translations an operation keeps: all where the state is as it was, and every one there is
-- where the tables have grown.
use batos_os.Prelude.{
  ℕ, ◌/◌, ◌^◌, ◌<◌, ◌≡◌, ◌≢◌, inl, inr, refl, ◌∙◌, true, false, some, arith, ◌==◌, ◌||◌, Ptr,
  Bool-cases, failed, bit_and, bit_and_index,
}
use batos_os.Vmm.{
  Vmm, TableRecord, is_present, is_huge, address_mask, word, level_pt, level_pd, level_pdpt,
  find_page_table_record, verify_existing_child_table, verify_page_table_root, pml4_index,
  pdpt_index, pd_index, pt_index,
}
use batos_os.Vmm.Map.{Request, map_page}
use batos_os.Vmm.Walk.{translate, translate_pdpt, translate_pd, translate_pt}
use batos_os.Vmm.Valid.{IsValid, Unchanged}
use batos_os.Vmm.Grow.{Grows}
use batos_os.Vmm.Through.{child_found, child_kept, verify_same}
use batos_os.Vmm.Mapped.{root_found, map_page_fails, map_page_works}
use batos_os.Vmm.Trips.{root_kept, root_same}

index_lt : (n : ℕ) → bit_and n 511 < 512
index_lt n = omega (arith, bit_and_index n)

-- A walk's last step gives a present entry's address.
pt_some :
    (s : Vmm) (a pt x : ℕ)
    → translate_pt s a pt ≡ some x
    → is_present (word s pt (pt_index a)) ≡ true
unfolding translate_pt
pt_some s a pt x h = ground arith

pt_same :
    (s t : Vmm) (a pt : ℕ)
    → word t pt (pt_index a) ≡ word s pt (pt_index a)
    → translate_pt t a pt ≡ translate_pt s a pt
unfolding translate_pt
pt_same s t a pt e = rw e refl

module _ {extra : ℕ} (s t : Vmm) (g : Grows extra s t) (pml4 : Ptr) (a x : ℕ) where
  pt_kept :
      (pt : Ptr) (r : TableRecord)
      → find_page_table_record s pt ≡ some r
      → translate_pt s a pt ≡ some x
      → translate_pt t a pt ≡ some x
  pt_kept pt r f h =
      pt_same s t a pt (g.words pt r (pt_index a) f (index_lt (a / 2 ^ 12)) (pt_some s a pt x h))
      ∙ h

  module _ (table : Ptr) (r : TableRecord) (f : find_page_table_record s table ≡ some r) where
    pd_kept : translate_pd s pml4 a table ≡ some x → translate_pd t pml4 a table ≡ some x
    unfolding translate_pd
    pd_kept h =
        let e : ℕ = word s table (pd_index a) in
        let here : is_present e ≡ true = ground arith in
        let same = g.words table r (pd_index a) f (index_lt (a / 2 ^ 21)) here in
        let c : Ptr = verify_existing_child_table s e level_pt pml4 in
        elim (Bool-cases (is_huge e || (c == 0))) [
          | inl end ↦ rw same (ground (arith, here))
          | inr on ↦
              let ne : c ≢ 0 = ground arith in
              let (k, fk) = child_found s e level_pt pml4 c refl ne in
              let ck = child_kept e level_pt pml4 c g refl ne in
              rw same (rw ck (ground (arith, here, pt_kept c k fk)))
        ]

  module _ (table : Ptr) (r : TableRecord) (f : find_page_table_record s table ≡ some r) where
    pdpt_kept : translate_pdpt s pml4 a table ≡ some x → translate_pdpt t pml4 a table ≡ some x
    unfolding translate_pdpt
    pdpt_kept h =
        let e : ℕ = word s table (pdpt_index a) in
        let here : is_present e ≡ true = ground arith in
        let same = g.words table r (pdpt_index a) f (index_lt (a / 2 ^ 30)) here in
        let c : Ptr = verify_existing_child_table s e level_pd pml4 in
        elim (Bool-cases (is_huge e || (c == 0))) [
          | inl end ↦ rw same (ground (arith, here))
          | inr on ↦
              let ne : c ≢ 0 = ground arith in
              let (k, fk) = child_found s e level_pd pml4 c refl ne in
              let ck = child_kept e level_pd pml4 c g refl ne in
              rw same (rw ck (ground (arith, here, pd_kept c k fk)))
        ]

  pub translate_kept : translate s pml4 a ≡ some x → translate t pml4 a ≡ some x
  unfolding translate
  translate_kept h =
      let root : failed (verify_page_table_root s pml4) ≡ false = ground arith in
      let (r, f) = root_found s pml4 root in
      let e : ℕ = word s pml4 (pml4_index a) in
      let here : is_present e ≡ true = ground arith in
      let same = g.words pml4 r (pml4_index a) f (index_lt (a / 2 ^ 39)) here in
      let c : Ptr = verify_existing_child_table s e level_pdpt pml4 in
      let ne : c ≢ 0 = ground arith in
      let (k, fk) = child_found s e level_pdpt pml4 c refl ne in
      let ck = child_kept e level_pdpt pml4 c g refl ne in
      let good = root_kept pml4 g root in
      rw same (rw ck (ground (arith, here, good, pdpt_kept c k fk)))

module _ (s t : Vmm) (u : Unchanged s t) (pml4 : Ptr) (a : ℕ) where
  child_same :
      (e l : ℕ) → verify_existing_child_table t e l pml4 ≡ verify_existing_child_table s e l pml4
  unfolding verify_existing_child_table
  child_same e l =
      let c : Ptr = bit_and e address_mask in rw (verify_same s t c l pml4 (u.found c)) refl

  module _ (table : Ptr) (r : TableRecord) (f : find_page_table_record s table ≡ some r) where
    pd_same : translate_pd t pml4 a table ≡ translate_pd s pml4 a table
    unfolding translate_pd
    pd_same =
        let e : ℕ = word s table (pd_index a) in
        let c : Ptr = verify_existing_child_table s e level_pt pml4 in
        let same = u.words table r (pd_index a) f (index_lt (a / 2 ^ 21)) in
        elim (Bool-cases (c == 0)) [
          | inl z ↦ rw same (rw (child_same e level_pt) (ground arith))
          | inr on ↦
              let (k, fk) = child_found s e level_pt pml4 c refl (ground arith) in
              let below = pt_same s t a c (u.words c k (pt_index a) fk (index_lt (a / 2 ^ 12))) in
              rw same (rw (child_same e level_pt) (rw below refl))
        ]

  module _ (table : Ptr) (r : TableRecord) (f : find_page_table_record s table ≡ some r) where
    pdpt_same : translate_pdpt t pml4 a table ≡ translate_pdpt s pml4 a table
    unfolding translate_pdpt
    pdpt_same =
        let e : ℕ = word s table (pdpt_index a) in
        let c : Ptr = verify_existing_child_table s e level_pd pml4 in
        let same = u.words table r (pdpt_index a) f (index_lt (a / 2 ^ 30)) in
        elim (Bool-cases (c == 0)) [
          | inl z ↦ rw same (rw (child_same e level_pd) (ground arith))
          | inr on ↦
              let (k, fk) = child_found s e level_pd pml4 c refl (ground arith) in
              rw same (rw (child_same e level_pd) (rw (pd_same c k fk) refl))
        ]

  translate_same : translate t pml4 a ≡ translate s pml4 a
  unfolding translate
  translate_same = elim (Bool-cases (failed (verify_page_table_root s pml4))) [
    | inl bad ↦ let e = root_same s t pml4 (u.found pml4) in rw e (ground arith)
    | inr good ↦
        let (r, f) = root_found s pml4 good in
        let e : ℕ = word s pml4 (pml4_index a) in
        let c : Ptr = verify_existing_child_table s e level_pdpt pml4 in
        let same = u.words pml4 r (pml4_index a) f (index_lt (a / 2 ^ 39)) in
        let er = root_same s t pml4 (u.found pml4) in
        elim (Bool-cases (c == 0)) [
          | inl z ↦ rw er (rw same (rw (child_same e level_pdpt) (ground arith)))
          | inr on ↦
              let (k, fk) = child_found s e level_pdpt pml4 c refl (ground arith) in
              rw er (rw same (rw (child_same e level_pdpt) (rw (pdpt_same c k fk) refl)))
        ]
  ]

-- In a valid state, vmm_map_page takes away no translation, of any address under any root: what
-- vmm_translate gave before the call, it gives after it.
pub map_keeps :
    {extra : ℕ} {s : Vmm} (q : Request) (pml4 a : ℕ) {x : ℕ}
    → IsValid extra s
    → translate s pml4 a ≡ some x
    → translate (map_page s q).1 pml4 a ≡ some x
map_keeps {s = s} q pml4 a {x} v h = elim (Bool-cases (failed (map_page s q).0)) [
  | inl bad ↦ translate_same s (map_page s q).1 (map_page_fails q v bad) pml4 a ∙ h
  | inr good ↦ translate_kept s (map_page s q).1 (map_page_works q v good).0 pml4 a x h
]

-- In a valid state, a call of vmm_map_page that fails leaves the frames' allocator, the registry
-- of tables and every translation as they were, although it may have made tables on the way.
pub map_transacts :
    {extra : ℕ} {s : Vmm} (q : Request)
    → IsValid extra s
    → failed (map_page s q).0 ≡ true
    → ((map_page s q).1.pmm ≡ s.pmm)
      × ((p : Ptr) → find_page_table_record (map_page s q).1 p ≡ find_page_table_record s p)
      × ((pml4 a : ℕ) → translate (map_page s q).1 pml4 a ≡ translate s pml4 a)
map_transacts {s = s} q v bad =
    let u = map_page_fails q v bad in (u.pmm, u.found, translate_same s (map_page s q).1 u)
