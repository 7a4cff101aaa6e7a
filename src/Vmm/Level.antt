-- ===== src/Vmm/Level.antt =====
-- One level of vmm_map_page: what holds of the rest of the mapping holds of the level and the rest.
use batos_os.Prelude.{
  ℕ, ◌+◌, ◌*◌, ◌/◌, ◌%◌, ◌<◌, ◌≡◌, ◌≢◌, inl, inr, refl, sym, ap, ◌∙◌, true, false, true≢false, some,
  arith, ◌==◌, Ptr, Bool-cases, Status, err, failed, bit_and,
}
use batos_os.Vmm.{
  Vmm, TableRecord, filled, is_present, is_huge, address_mask, word, set_word, child_entry,
  owner_of, get_or_create_table, verify_existing_child_table, allocate_page_table,
  find_page_table_record, rollback_page_table, verify_page_table_record,
}
use batos_os.Vmm.Map.{Request, through, undo}
use batos_os.Vmm.Valid.{IsValid, Unchanged, Unchanged_refl}
use batos_os.Vmm.Alloc.{allocate_page_table_cases}
use batos_os.Vmm.Words.{Leads, child_entry-Leads, word-set_word_self}
use batos_os.Vmm.Grow.{Grows, Grows-Grows, find-set_word}
use batos_os.Vmm.Undo.{linked-IsValid, linked-Grows, linked_found, undone}
use batos_os.Vmm.Through.{child_found, child_kept, verified_child, Transacts, Below}

made_verified :
    (s : Vmm) (c : Ptr) (l : ℕ) (o : Ptr) (k : TableRecord)
    → l < 3
    → find_page_table_record s c ≡ some (filled c l (owner_of l o c) k)
    → failed (verify_page_table_record s c l o) ≡ false
unfolding verify_page_table_record
made_verified s c l o k lt f = ground arith

-- The four ways through a level.
module _ (q : Request) (l : ℕ) (s : Vmm) (p : Ptr) (i : ℕ) (rest : Vmm → Ptr → Status × Vmm) where
  abbrev old : Ptr
  old = verify_existing_child_table s (word s p i) l q.pml4

  through_wrong : is_present (word s p i) ≡ true → old ≡ 0 → through q l s p i rest ≡ (err 1, s)
  unfolding through get_or_create_table
  through_wrong here z = ground arith

  through_existing : is_present (word s p i) ≡ true → old ≢ 0 → through q l s p i rest ≡ rest s old
  unfolding through get_or_create_table undo
  through_existing here ne = elim (Bool-cases (failed (rest s old).0)) [
    | inl f ↦ ground (arith, ne)
    | inr f ↦ ground (arith, ne)
  ]

  module _ (absent : is_present (word s p i) ≡ false) where
    through_none :
        (allocate_page_table s l q.pml4).0 ≡ 0
        → through q l s p i rest ≡ (err 1, (allocate_page_table s l q.pml4).1)
    unfolding through get_or_create_table
    through_none z = ground (arith, absent)

    abbrev new : Ptr
    new = (allocate_page_table s l q.pml4).0

    abbrev joined : Vmm
    joined = set_word (allocate_page_table s l q.pml4).1 p i (child_entry new q.flags)

    through_undone :
        new ≢ 0
        → failed (rest joined new).0 ≡ true
        → through q l s p i rest
          ≡ ((rest joined new).0, (rollback_page_table (rest joined new).1 p i new).1)
    unfolding through get_or_create_table undo
    through_undone ne h = ground (arith, ne, absent)

    through_fresh :
        new ≢ 0 → failed (rest joined new).0 ≡ false → through q l s p i rest ≡ rest joined new
    unfolding through get_or_create_table undo
    through_fresh ne h = ground (arith, ne, absent)

module _ {extra : ℕ} {rest : Vmm → Ptr → Status × Vmm} {Q : Vmm → Ptr → Type 0}
    (x : Transacts extra rest Q) (q : Request) (l : ℕ) (below_root : l < 3) (i : ℕ)
    (lt : i < 512) where
  abbrev step : Vmm → Ptr → Status × Vmm
  step s p = through q l s p i rest

  through_fails :
      (s : Vmm) (p : Ptr) (r : TableRecord)
      → IsValid extra s
      → find_page_table_record s p ≡ some r
      → failed (step s p).0 ≡ true
      → Unchanged s (step s p).1
  through_fails s p r v live h = elim (Bool-cases (is_present (word s p i))) [
    | inl here ↦ elim (Bool-cases (old q l s p i rest == 0)) [
      | inl wrong ↦ rw (through_wrong q l s p i rest here (ground arith)) (Unchanged_refl v)
      | inr fine ↦
          let ne : old q l s p i rest ≢ 0 = ground arith in
          let e = through_existing q l s p i rest here ne in
          let (k, f) = child_found s (word s p i) l q.pml4 (old q l s p i rest) refl ne in
          rw e (x.fails s (old q l s p i rest) k v f (sym (ap (λ z. failed z.0) e) ∙ h))
    ]
    | inr absent ↦ elim (allocate_page_table_cases s v l q.pml4) [
      | inl (z, same) ↦ rw (through_none q l s p i rest absent z) same
      | inr m ↦
          let u : Vmm = joined q l s p i rest absent in
          let c : Ptr = new q l s p i rest absent in
          let v1 : IsValid extra u =
            linked-IsValid s v p r live i lt absent l q.pml4 c (allocate_page_table s l q.pml4).1 m
              q.flags in
          let f =
            linked_found s v p r live i lt absent l q.pml4 c (allocate_page_table s l q.pml4).1 m
              q.flags in
          elim (Bool-cases (failed (rest u c).0)) [
            | inl bad ↦ rw (through_undone q l s p i rest absent m.ne bad) (
                undone s v p r live i lt absent l q.pml4 c (allocate_page_table s l q.pml4).1 m
                  q.flags (rest u c).1 (x.fails u c _ v1 f bad))
            | inr good ↦ absurd (
                true≢false (
                  sym h
                  ∙ ap (λ z. failed z.0) (through_fresh q l s p i rest absent m.ne good)
                  ∙ good))
          ]
    ]
  ]

  through_works :
      (s : Vmm) (p : Ptr) (r : TableRecord)
      → IsValid extra s
      → find_page_table_record s p ≡ some r
      → failed (step s p).0 ≡ false
      → Grows extra s (step s p).1 × Below l q.pml4 i Q (step s p).1 p
  through_works s p r v live h = elim (Bool-cases (is_present (word s p i))) [
    | inl here ↦ elim (Bool-cases (old q l s p i rest == 0)) [
      | inl wrong ↦ absurd (
          true≢false
            (sym (ap (λ z. failed z.0) (through_wrong q l s p i rest here (ground arith))) ∙ h))
      | inr fine ↦
          let c : Ptr = old q l s p i rest in
          let ne : c ≢ 0 = ground arith in
          let e = through_existing q l s p i rest here ne in
          let (k, f) = child_found s (word s p i) l q.pml4 c refl ne in
          let (g, holds) = x.works s c k v f (sym (ap (λ z. failed z.0) e) ∙ h) in
          let same = g.words p r i live lt here in
          rw e (
            g,
            (
              c,
              ne,
              ap (λ (n : ℕ). verify_existing_child_table (rest s c).1 n l q.pml4) same
                  ∙ child_kept (word s p i) l q.pml4 c g refl ne,
              holds,
            ),
          )
    ]
    | inr absent ↦ elim (allocate_page_table_cases s v l q.pml4) [
      | inl (z, same) ↦
          absurd
            (true≢false (sym (ap (λ z. failed z.0) (through_none q l s p i rest absent z)) ∙ h))
      | inr m ↦
          let u : Vmm = joined q l s p i rest absent in
          let c : Ptr = new q l s p i rest absent in
          let a : Vmm = (allocate_page_table s l q.pml4).1 in
          let v1 : IsValid extra u =
            linked-IsValid s v p r live i lt absent l q.pml4 c a m q.flags in
          let f = linked_found s v p r live i lt absent l q.pml4 c a m q.flags in
          elim (Bool-cases (failed (rest u c).0)) [
            | inl bad ↦ absurd (
                true≢false (
                  sym bad
                  ∙ sym (ap (λ z. failed z.0) (through_undone q l s p i rest absent m.ne bad))
                  ∙ h))
            | inr good ↦
                let (g, holds) = x.works u c _ v1 f good in
                let le : Leads (child_entry c q.flags) c (3 + q.flags / 4 % 2 * 4) =
                  child_entry-Leads c q.flags m.aligned m.lt in
                let at : word u p i ≡ child_entry c q.flags =
                  word-set_word_self a p i (child_entry c q.flags) in
                let child : verify_existing_child_table u (word u p i) l q.pml4 ≡ c =
                  verified_child u (word u p i) l q.pml4 c (ap is_present at ∙ le.present)
                    (ap is_huge at ∙ le.small)
                    (ap (λ (n : ℕ). bit_and n address_mask) at ∙ le.address)
                    (made_verified u c l q.pml4 m.epoch below_root f) in
                let first : Grows extra s u =
                  linked-Grows s v p r live i lt absent l q.pml4 c a m q.flags in
                let linked_live =
                  find-set_word a p i (child_entry c q.flags) p
                  ∙ m.other p
                      (λ e. absurd (ground (arith, m.fresh, ap (find_page_table_record s) e)))
                  ∙ live in
                let same = g.words p r i linked_live lt (ap is_present at ∙ le.present) in
                rw (through_fresh q l s p i rest absent m.ne good) (
                  Grows-Grows first g,
                  (
                    c,
                    m.ne,
                    ap (λ (n : ℕ). verify_existing_child_table (rest u c).1 n l q.pml4) same
                        ∙ child_kept (word u p i) l q.pml4 c g child m.ne,
                    holds,
                  ),
                )
          ]
    ]
  ]

  pub through-Transacts : Transacts extra step (Below l q.pml4 i Q)
  through-Transacts = record { fails = through_fails; works = through_works }
