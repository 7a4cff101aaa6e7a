-- ===== src/Vmm/Undo.antt =====
-- rollback_page_table: a child that was made is taken away again, and the state is as it was.
use batos_os.Prelude.{
  ℕ, ◌+◌, ◌*◌, ◌/◌, ◌%◌, ◌<◌, ◌≡◌, ◌≢◌, ◌⊎◌, inl, inr, refl, sym, ap, ◌∙◌, true, false, ◌&&◌, some,
  arith, ◌==◌, Ptr, Bool-cases, bit_and,
}
use batos_os.Pmm.{Pmm, free_frame}
use batos_os.Vmm.{
  Vmm, TableRecord, filled, is_present, word, set_word, child_entry, address_mask, owner_of,
  find_page_table_record, release_page_table, rollback_page_table,
}
use batos_os.Vmm.Records.{without, lookup-without_ne, lookup-without_self, without-AreUnique}
use batos_os.Vmm.Words.{word-set_word_self, word-set_word_ne, child_entry-Leads, Leads}
use batos_os.Vmm.Valid.{IsValid, Unchanged}
use batos_os.Vmm.Alloc.{Made, find_same, find_lookup, word_same}
use batos_os.Vmm.Grow.{Grows, find-set_word, wrote-IsValid, wrote-Grows}

-- The state after release_page_table of a frame that has a record in use.
abbrev pub gone : Vmm → Ptr → Vmm
gone s c = record s {
  page_table_records = without s.page_table_records c;
  pmm = free_frame s.pmm c;
}

release_found :
    (s : Vmm) (c : Ptr) (r : TableRecord)
    → find_page_table_record s c ≡ some r
    → r.in_use ≡ true
    → (release_page_table s c).1 ≡ gone s c
unfolding release_page_table
release_found s c r f live = ground arith

rollback_found :
    (s : Vmm) (p : Ptr) (i : ℕ) (c : Ptr) (r : TableRecord)
    → c ≢ 0
    → is_present (word s p i) ≡ true
    → bit_and (word s p i) address_mask ≡ c
    → find_page_table_record s c ≡ some r
    → r.in_use ≡ true
    → (rollback_page_table s p i c).1 ≡ gone (set_word s p i 0) c
unfolding rollback_page_table
rollback_found s p i c r ne here at f live =
    let e = release_found (set_word s p i 0) c r (find-set_word s p i 0 c ∙ f) live in
    ground (arith, ne, e)

module _ {extra : ℕ} (s : Vmm) (v : IsValid extra s) (p : Ptr) (r : TableRecord)
    (live : find_page_table_record s p ≡ some r) (i : ℕ) (lt : i < 512)
    (absent : is_present (word s p i) ≡ false) (level : ℕ) (owner : Ptr) (c : Ptr) (t : Vmm)
    (m : Made extra s level owner c t) (flags : ℕ) where
  abbrev entry : ℕ
  entry = child_entry c flags

  abbrev pub linked : Vmm
  linked = set_word t p i entry

  entry-Leads : Leads entry c (3 + flags / 4 % 2 * 4)
  entry-Leads = child_entry-Leads c flags m.aligned m.lt

  table_ne : (q : Ptr) (k : TableRecord) → find_page_table_record s q ≡ some k → q ≢ c
  table_ne q k f e = ground (arith, ap (find_page_table_record s) e, m.fresh)

  live_after :
      (q : Ptr) (k : TableRecord)
      → find_page_table_record s q ≡ some k
      → find_page_table_record t q ≡ some k
  live_after q k f = m.other q (table_ne q k f) ∙ f

  same_word :
      (q : Ptr) (k : TableRecord) (j : ℕ)
      → find_page_table_record s q ≡ some k
      → j < 512
      → word t q j ≡ word s q j
  same_word q k j f l = m.words q j (v.aligned q k f) l (table_ne q k f)

  still_absent : is_present (word t p i) ≡ false
  still_absent = ap is_present (same_word p r i live lt) ∙ absent

  pub linked-IsValid : IsValid extra linked
  linked-IsValid =
      wrote-IsValid t m.valid p r (live_after p r live) i lt still_absent entry entry-Leads.present

  pub linked-Grows : Grows extra s linked
  linked-Grows =
      let g =
        wrote-Grows t m.valid p r (live_after p r live) i lt still_absent entry
          entry-Leads.present in
      record {
        valid = linked-IsValid;
        kept = λ q k f. g.kept q k (live_after q k f);
        words = λ q k j f l here.
            let same = same_word q k j f l in
            g.words q k j (live_after q k f) l (ap is_present same ∙ here) ∙ same;
        spaces = g.spaces ∙ m.spaces;
        active = g.active ∙ m.active;
      }

  pub linked_found :
      find_page_table_record linked c ≡ some (filled c level (owner_of level owner c) m.epoch)
  linked_found = find-set_word t p i entry c ∙ m.self

  -- The rest of an operation that fails leaves the new child as it was made.
  module _ (u : Vmm) (same : Unchanged linked u) where
    linked_live : find_page_table_record linked p ≡ some r
    linked_live = find-set_word t p i entry p ∙ live_after p r live

    u_entry : word u p i ≡ entry
    u_entry = same.words p r i linked_live lt ∙ word-set_word_self t p i entry

    u_found : find_page_table_record u c ≡ some (filled c level (owner_of level owner c) m.epoch)
    u_found = same.found c ∙ linked_found

    abbrev back : Vmm
    back = gone (set_word u p i 0) c

    back_at : (rollback_page_table u p i c).1 ≡ back
    back_at =
        rollback_found u p i c (filled c level (owner_of level owner c) m.epoch) m.ne
          (ap is_present u_entry ∙ entry-Leads.present)
          (ap (λ (n : ℕ). bit_and n address_mask) u_entry ∙ entry-Leads.address) u_found refl

    back_pmm : free_frame u.pmm c ≡ s.pmm
    unfolding set_word
    back_pmm = ap (λ (n : Pmm). free_frame n c) same.pmm ∙ m.frees

    back_found : (q : Ptr) → find_page_table_record back q ≡ find_page_table_record s q
    unfolding find_page_table_record set_word
    back_found q = elim (Bool-cases (q == c)) [
      | inl here ↦
          let e : q ≡ c = ground arith in
          rw e (
            find_lookup back c m.ne
            ∙ lookup-without_self u.page_table_records c same.unique
            ∙ sym m.fresh)
      | inr there ↦
          find_same u back q (lookup-without_ne u.page_table_records c q (ground arith))
          ∙ same.found q
          ∙ find-set_word t p i entry q
          ∙ m.other q (ground arith)
    ]

    back_words :
        (q : Ptr) (k : TableRecord) (j : ℕ)
        → find_page_table_record s q ≡ some k
        → j < 512
        → word back q j ≡ word s q j
    back_words q k j f l = elim (Bool-cases ((q == p) && (j == i))) [
      | inl both ↦
          let eq : q ≡ p = ground arith in
          let ei : j ≡ i = ground arith in
          rw eq (
            rw ei (
              word_same (set_word u p i 0) back p i refl
              ∙ word-set_word_self u p i 0
              ∙ sym (v.clear p r i live lt absent)))
      | inr other ↦
          let at_p = v.aligned p r live in
          let at_q = v.aligned q k f in
          let apart : (q ≢ p) ⊎ (j ≢ i) = ground arith in
          word_same (set_word u p i 0) back q j refl
          ∙ word-set_word_ne u p q i j 0 at_p at_q lt l apart
          ∙ same.words q k j (find-set_word t p i entry q ∙ live_after q k f) l
          ∙ word-set_word_ne t p q i j entry at_p at_q lt l apart
          ∙ same_word q k j f l
    ]

    pub undone : Unchanged s (rollback_page_table u p i c).1
    unfolding set_word
    undone = rw back_at (record {
      pmm = back_pmm;
      unique = without-AreUnique u.page_table_records c same.unique;
      found = back_found;
      words = back_words;
      spaces = same.spaces ∙ m.spaces;
      active = same.active ∙ m.active;
    })
