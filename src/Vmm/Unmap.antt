-- ===== src/Vmm/Unmap.antt =====
-- vmm_unmap_page: what it gives back, and what it leaves.
use batos_os.Prelude.{
  ℕ, ◌/◌, ◌^◌, ◌<◌, ◌≡◌, ◌≢◌, ◌⊎◌, inl, inr, refl, sym, ap, ◌∙◌, true, false, some, arith, ◌==◌,
  ◌&&◌, Ptr, Bool-cases, failed, bit_and, bit_and_index,
}
use batos_os.Vmm.{
  Vmm, TableRecord, is_present, address_mask, word, set_word, level_pt, level_pd, level_pdpt,
  find_page_table_record, verify_existing_child_table, verify_page_table_record,
  verify_page_table_root, pml4_index, pdpt_index, pd_index, pt_index,
}
use batos_os.Vmm.Map.{page_offset, clear_leaf, unmap_page}
use batos_os.Vmm.Valid.{IsValid}
use batos_os.Vmm.Words.{word-set_word_self, word-set_word_ne}
use batos_os.Vmm.Alloc.{find_same, word_same}
use batos_os.Vmm.Through.{child_verified, verify_same}
use batos_os.Vmm.Mapped.{PathTo}

-- The PT's entry is present and of the frame `x`.
abbrev pub HoldsPage : ℕ → ℕ → Vmm → Ptr → Type 0
HoldsPage a x s pt =
    (is_present (word s pt (pt_index a)) ≡ true)
    × (bit_and (word s pt (pt_index a)) address_mask ≡ x)

clear_some : (s : Vmm) (pml4 a pt x : ℕ) → (clear_leaf s pml4 a pt).0 ≡ some x → HoldsPage a x s pt
unfolding clear_leaf
clear_some s pml4 a pt x h = ground arith

module _ (s : Vmm) (pml4 a : ℕ) where
  abbrev pdpt_of : Ptr
  pdpt_of = verify_existing_child_table s (word s pml4 (pml4_index a)) level_pdpt pml4

  abbrev pd_of : Ptr
  pd_of = verify_existing_child_table s (word s pdpt_of (pdpt_index a)) level_pd pml4

  abbrev pt_of : Ptr
  pt_of = verify_existing_child_table s (word s pd_of (pd_index a)) level_pt pml4

  -- A call that works has found a walk to a present entry.
  pub unmap_some :
      (x : ℕ)
      → (unmap_page s pml4 a).0 ≡ some x
      → (failed (verify_page_table_root s pml4) ≡ false)
        × (page_offset a ≡ 0)
        × PathTo (HoldsPage a x) pml4 a s
  unfolding unmap_page
  unmap_some x h =
      let nd : pdpt_of ≢ 0 = ground arith in
      let np : pd_of ≢ 0 = ground (arith, nd) in
      let nt : pt_of ≢ 0 = ground (arith, nd, np) in
      let leaf : (clear_leaf s pml4 a pt_of).0 ≡ some x = ground (arith, nd, np, nt) in
      (
        ground arith,
        ground arith,
        (pdpt_of, nd, refl, (pd_of, np, refl, (pt_of, nt, refl, clear_some s pml4 a pt_of x leaf))),
      )

verified_level :
    (s : Vmm) (c : Ptr) (l : ℕ) (o : Ptr) (r : TableRecord)
    → failed (verify_page_table_record s c l o) ≡ false
    → find_page_table_record s c ≡ some r
    → r.level ≡ l
unfolding verify_page_table_record
verified_level s c l o r h f = ground arith

pub root_level :
    (s : Vmm) (p : Ptr) (r : TableRecord)
    → failed (verify_page_table_root s p) ≡ false
    → find_page_table_record s p ≡ some r
    → r.level ≡ 3
unfolding verify_page_table_root
root_level s p r h f = verified_level s p 3 p r (ground arith) f

pub child_level :
    (s : Vmm) (e l : ℕ) (o c : Ptr) (r : TableRecord)
    → verify_existing_child_table s e l o ≡ c
    → c ≢ 0
    → find_page_table_record s c ≡ some r
    → r.level ≡ l
child_level s e l o c r at ne f = verified_level s c l o r (child_verified s e l o c at ne).3 f

-- Tables of two levels are two tables.
levels_apart :
    (s : Vmm) (p q : Ptr) (r k : TableRecord)
    → find_page_table_record s p ≡ some r
    → find_page_table_record s q ≡ some k
    → r.level ≢ k.level
    → p ≢ q
levels_apart s p q r k f g ne e =
    ground (arith, ap (find_page_table_record s) e, ap (λ (n : TableRecord). n.level))

module _ {extra : ℕ} (s : Vmm) (v : IsValid extra s) (pml4 a x pt : ℕ) (r : TableRecord)
    (live : find_page_table_record s pt ≡ some r) (holds : HoldsPage a x s pt) where
  abbrev pub after : Vmm
  after = (clear_leaf s pml4 a pt).1

  pub after_found : (q : Ptr) → find_page_table_record after q ≡ find_page_table_record s q
  unfolding clear_leaf set_word
  after_found q = find_same s after q (ground (arith, holds))

  pub after_words : after.words ≡ (set_word s pt (pt_index a) 0).words
  unfolding clear_leaf set_word
  after_words = ground (arith, holds)

  pub after_pmm : after.pmm ≡ s.pmm
  unfolding clear_leaf set_word
  after_pmm = ground (arith, holds)

  pub after_records : after.page_table_records ≡ s.page_table_records
  unfolding clear_leaf set_word
  after_records = ground (arith, holds)

  pub after_self : word after pt (pt_index a) ≡ 0
  after_self =
      word_same (set_word s pt (pt_index a) 0) after pt (pt_index a) after_words
      ∙ word-set_word_self s pt (pt_index a) 0

  pub after_keeps :
      (q : Ptr) (k : TableRecord) (j : ℕ)
      → find_page_table_record s q ≡ some k
      → j < 512
      → (q ≢ pt) ⊎ (j ≢ pt_index a)
      → word after q j ≡ word s q j
  after_keeps q k j f lt ne =
      word_same (set_word s pt (pt_index a) 0) after q j after_words
      ∙ word-set_word_ne s pt q (pt_index a) j 0 (v.aligned pt r live) (v.aligned q k f)
          (omega (arith, bit_and_index (a / 2 ^ 12))) lt ne

  pub after-IsValid : IsValid extra after
  after-IsValid = record {
    pmm = rw after_pmm v.pmm;
    memory_le = rw after_pmm v.memory_le;
    unique = rw after_records v.unique;
    aligned = λ q k f. v.aligned q k (sym (after_found q) ∙ f);
    used = λ q k f. rw after_pmm (v.used q k (sym (after_found q) ∙ f));
    clear = λ q k j f lt gone. elim (Bool-cases ((q == pt) && (j == pt_index a))) [
      | inl both ↦
          let eq : q ≡ pt = ground arith in
          let ej : j ≡ pt_index a = ground arith in rw eq (rw ej after_self)
      | inr other ↦
          let before = sym (after_found q) ∙ f in
          let same = after_keeps q k j before lt (ground arith) in
          same ∙ v.clear q k j before lt (sym (ap is_present same) ∙ gone)
    ];
  }

  -- An entry of a table of another level stays, and so does the child that it leads to.
  pub after_child :
      (q : Ptr) (k : TableRecord) (j l : ℕ)
      → find_page_table_record s q ≡ some k
      → k.level ≢ r.level
      → j < 512
      → verify_existing_child_table after (word after q j) l pml4
        ≡ verify_existing_child_table s (word s q j) l pml4
  unfolding verify_existing_child_table
  after_child q k j l f ne lt =
      let same = after_keeps q k j f lt (inl (levels_apart s q pt k r f live ne)) in
      let c : Ptr = bit_and (word s q j) address_mask in
      rw same (rw (verify_same s after c l pml4 (after_found c)) refl)
