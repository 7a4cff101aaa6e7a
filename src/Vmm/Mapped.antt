-- ===== src/Vmm/Mapped.antt =====
-- vmm_map_page as a whole: a call that fails leaves the state as it was, and a call that works makes
-- a walk that ends at the new entry.
use batos_os.Prelude.{
  ℕ, ◌+◌, ◌*◌, ◌/◌, ◌%◌, ◌^◌, ◌≡◌, inl, inr, sym, ap, ◌∙◌, Bool, true, false, true≢false, some,
  arith, ◌==◌, ◌||◌, not, Ptr, Bool-cases, ret, err, failed, bit_and_index,
}
use batos_os.Vmm.{
  Vmm, TableRecord, is_present, word, set_word, level_pt, level_pd, level_pdpt,
  find_page_table_record, verify_page_table_root, pml4_index, pdpt_index, pd_index, pt_index,
}
use batos_os.Vmm.Map.{
  Request, leaf_entry, other_flags, page_offset, map_leaf, map_pd, map_pdpt, map_root, map_page,
}
use batos_os.Vmm.Valid.{IsValid, Unchanged, Unchanged_refl}
use batos_os.Vmm.Words.{Leads, leaf_entry-Leads, word-set_word_self}
use batos_os.Vmm.Grow.{Grows, wrote-Grows}
use batos_os.Vmm.Through.{verified_found, Transacts, Below}
use batos_os.Vmm.Level.{through-Transacts}

-- A walk from the root to a PT of which `Q` holds.
abbrev pub PathTo : (Vmm → Ptr → Type 0) → Ptr → ℕ → Vmm → Type 0
PathTo Q pml4 address s =
    Below level_pdpt pml4 (pml4_index address)
      (Below level_pd pml4 (pdpt_index address) (Below level_pt pml4 (pd_index address) Q)) s pml4

abbrev pub HoldsLeaf : Request → Vmm → Ptr → Type 0
HoldsLeaf q s pt = word s pt (pt_index q.virtual_address) ≡ leaf_entry q.physical_address q.flags

module _ (q : Request) where
  leaf_there :
      (s : Vmm) (pt : Ptr)
      → is_present (word s pt (pt_index q.virtual_address)) ≡ true
      → map_leaf q s pt ≡ (err 1, s)
  unfolding map_leaf
  leaf_there s pt h = ground arith

  leaf_new :
      (s : Vmm) (pt : Ptr)
      → is_present (word s pt (pt_index q.virtual_address)) ≡ false
      → map_leaf q s pt ≡ (
        ret 0,
        set_word s pt (pt_index q.virtual_address) (leaf_entry q.physical_address q.flags),
      )
  unfolding map_leaf
  leaf_new s pt h = ground arith

  leaf-Leads :
      Leads
        (leaf_entry q.physical_address q.flags)
        (q.physical_address / 4096 % 2 ^ 40 * 4096)
        (1 + q.flags / 2 % 4 * 2)
  leaf-Leads = leaf_entry-Leads q.physical_address q.flags

  map_leaf-Transacts : {extra : ℕ} → Transacts extra (map_leaf q) (HoldsLeaf q)
  map_leaf-Transacts = record {
    fails = λ s pt r v live h.
        elim (Bool-cases (is_present (word s pt (pt_index q.virtual_address)))) [
          | inl here ↦ rw (leaf_there s pt here) (Unchanged_refl v)
          | inr absent ↦ absurd (true≢false (sym h ∙ ap (λ z. failed z.0) (leaf_new s pt absent)))
        ];
    works = λ s pt r v live h.
        elim (Bool-cases (is_present (word s pt (pt_index q.virtual_address)))) [
          | inl here ↦ absurd (true≢false (sym (ap (λ z. failed z.0) (leaf_there s pt here)) ∙ h))
          | inr absent ↦
              let i : ℕ = pt_index q.virtual_address in
              let e : ℕ = leaf_entry q.physical_address q.flags in
              rw (leaf_new s pt absent) (
                wrote-Grows s v pt r live i
                    (omega (arith, bit_and_index (q.virtual_address / 2 ^ 12))) absent e
                    leaf-Leads.present,
                word-set_word_self s pt i e,
              )
        ];
  }

  map_pd-Transacts :
      {extra : ℕ}
      → Transacts extra
          (map_pd q)
          (Below level_pt q.pml4 (pd_index q.virtual_address) (HoldsLeaf q))
  unfolding map_pd
  map_pd-Transacts =
      through-Transacts map_leaf-Transacts q level_pt (omega arith) (pd_index q.virtual_address)
        (omega (arith, bit_and_index (q.virtual_address / 2 ^ 21)))

  map_pdpt-Transacts :
      {extra : ℕ}
      → Transacts extra (map_pdpt q) (
          Below level_pd q.pml4
            (pdpt_index q.virtual_address)
            (Below level_pt q.pml4 (pd_index q.virtual_address) (HoldsLeaf q)))
  unfolding map_pdpt
  map_pdpt-Transacts =
      through-Transacts map_pd-Transacts q level_pd (omega arith) (pdpt_index q.virtual_address)
        (omega (arith, bit_and_index (q.virtual_address / 2 ^ 30)))

  map_root-Transacts :
      {extra : ℕ}
      → Transacts extra (map_root q) (λ s p.
        Below level_pdpt q.pml4
          (pml4_index q.virtual_address)
          (Below level_pd q.pml4
            (pdpt_index q.virtual_address)
            (Below level_pt q.pml4 (pd_index q.virtual_address) (HoldsLeaf q)))
          s
          p)
  unfolding map_root
  map_root-Transacts =
      through-Transacts map_pdpt-Transacts q level_pdpt (omega arith) (pml4_index q.virtual_address)
        (omega (arith, bit_and_index (q.virtual_address / 2 ^ 39)))

-- The guards of vmm_map_page.
abbrev pub refuses_map : Vmm → Request → Bool
refuses_map s q =
    (q.pml4 == 0)
    || not (other_flags q.flags == 0)
    || failed (verify_page_table_root s q.pml4)
    || not (page_offset q.virtual_address == 0)
    || not (page_offset q.physical_address == 0)

map_refused : (s : Vmm) (q : Request) → refuses_map s q ≡ true → map_page s q ≡ (err 1, s)
unfolding map_page
map_refused s q h = ground arith

map_accepted :
    (s : Vmm) (q : Request) → refuses_map s q ≡ false → map_page s q ≡ map_root q s q.pml4
unfolding map_page
map_accepted s q h = ground arith

pub root_found :
    (s : Vmm) (pml4 : Ptr)
    → failed (verify_page_table_root s pml4) ≡ false
    → (r : TableRecord) × (find_page_table_record s pml4 ≡ some r)
unfolding verify_page_table_root
root_found s pml4 h = verified_found s pml4 3 pml4 (ground arith)

-- In a valid state, a call of vmm_map_page that fails leaves the allocator, the tables, their words
-- and the address spaces as they were.
pub map_page_fails :
    {extra : ℕ} {s : Vmm} (q : Request)
    → IsValid extra s
    → failed (map_page s q).0 ≡ true
    → Unchanged s (map_page s q).1
map_page_fails {extra} {s} q v h = elim (Bool-cases (refuses_map s q)) [
  | inl no_way ↦ rw (map_refused s q no_way) (Unchanged_refl v)
  | inr fine ↦
      let (r, f) = root_found s q.pml4 (ground arith) in
      let e = map_accepted s q fine in
      rw e ((map_root-Transacts q).fails s q.pml4 r v f (sym (ap (λ z. failed z.0) e) ∙ h))
]

pub map_page_works :
    {extra : ℕ} {s : Vmm} (q : Request)
    → IsValid extra s
    → failed (map_page s q).0 ≡ false
    → Grows extra s (map_page s q).1
      × PathTo (HoldsLeaf q) q.pml4 q.virtual_address (map_page s q).1
      × (refuses_map s q ≡ false)
map_page_works {extra} {s} q v h = elim (Bool-cases (refuses_map s q)) [
  | inl no_way ↦ absurd (true≢false (sym (ap (λ z. failed z.0) (map_refused s q no_way)) ∙ h))
  | inr fine ↦
      let (r, f) = root_found s q.pml4 (ground arith) in
      let e = map_accepted s q fine in
      let (g, path) =
        (map_root-Transacts q).works s q.pml4 r v f (sym (ap (λ z. failed z.0) e) ∙ h) in
      rw e (g, path, fine)
]
