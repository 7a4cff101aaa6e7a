-- ===== src/Vmm/Grow.antt =====
-- get_or_create_table: a child that is there, a child that is made, and how a rollback takes a new
-- child away again.
use batos_os.Prelude.{
  ℕ, ◌<◌, ◌≡◌, ◌≢◌, ◌⊎◌, inl, inr, refl, sym, ap, ◌∙◌, true, false, true≢false, some, arith, ◌==◌,
  Ptr, Bool-cases, ◌&&◌,
}
use batos_os.Vmm.{Vmm, TableRecord, is_present, word, set_word, find_page_table_record}
use batos_os.Vmm.Words.{word-set_word_self, word-set_word_ne}
use batos_os.Vmm.Valid.{IsValid}
use batos_os.Vmm.Alloc.{find_same}

pub find-set_word :
    (s : Vmm) (t : Ptr) (i e : ℕ) (q : Ptr)
    → find_page_table_record (set_word s t i e) q ≡ find_page_table_record s q
unfolding set_word
find-set_word s t i e q = find_same s (set_word s t i e) q refl

-- The tables stay, with what their present entries hold.
pub record Grows (extra : ℕ) (s t : Vmm) : Type 0 where
  pub valid : IsValid extra t
  pub kept :
      (q : Ptr) (r : TableRecord)
      → find_page_table_record s q ≡ some r
      → find_page_table_record t q ≡ some r
  pub words :
      (q : Ptr) (r : TableRecord) (i : ℕ)
      → find_page_table_record s q ≡ some r
      → i < 512
      → is_present (word s q i) ≡ true
      → word t q i ≡ word s q i
  pub spaces : t.address_space_records ≡ s.address_space_records
  pub active : t.active_address_space_pml4 ≡ s.active_address_space_pml4

pub Grows-Grows : {extra : ℕ} {s t u : Vmm} → Grows extra s t → Grows extra t u → Grows extra s u
Grows-Grows g h = record {
  valid = h.valid;
  kept = λ q r f. h.kept q r (g.kept q r f);
  words = λ q r i f lt here.
      let same = g.words q r i f lt here in
      h.words q r i (g.kept q r f) lt (ap is_present same ∙ here) ∙ same;
  spaces = h.spaces ∙ g.spaces;
  active = h.active ∙ g.active;
}

-- To write an entry that is present, where none was, keeps a valid state and its present entries.
module _ {extra : ℕ} (s : Vmm) (v : IsValid extra s) (p : Ptr) (r : TableRecord)
    (live : find_page_table_record s p ≡ some r) (i : ℕ) (lt : i < 512)
    (absent : is_present (word s p i) ≡ false) (e : ℕ) (here : is_present e ≡ true) where
  abbrev wrote : Vmm
  wrote = set_word s p i e

  wrote_keeps :
      (q : Ptr) (k : TableRecord) (j : ℕ)
      → find_page_table_record s q ≡ some k
      → j < 512
      → (q ≢ p) ⊎ (j ≢ i)
      → word wrote q j ≡ word s q j
  wrote_keeps q k j f l ne =
      word-set_word_ne s p q i j e (v.aligned p r live) (v.aligned q k f) lt l ne

  pub wrote-IsValid : IsValid extra wrote
  unfolding set_word
  wrote-IsValid = record {
    pmm = v.pmm;
    memory_le = v.memory_le;
    unique = v.unique;
    aligned = λ q k f. v.aligned q k (sym (find-set_word s p i e q) ∙ f);
    used = λ q k f. v.used q k (sym (find-set_word s p i e q) ∙ f);
    clear = λ q k j f l gone. elim (Bool-cases ((q == p) && (j == i))) [
      | inl both ↦
          let eq : q ≡ p = ground arith in
          let ei : j ≡ i = ground arith in
          let at : word wrote q j ≡ e =
            ap (λ (n : ℕ). word wrote n j) eq ∙ ap (word wrote p) ei ∙ word-set_word_self s p i e in
          absurd (true≢false (sym here ∙ sym (ap is_present at) ∙ gone))
      | inr other ↦
          let before = sym (find-set_word s p i e q) ∙ f in
          let same = wrote_keeps q k j before l (ground arith) in
          same ∙ v.clear q k j before l (sym (ap is_present same) ∙ gone)
    ];
  }

  pub wrote-Grows : Grows extra s wrote
  unfolding set_word
  wrote-Grows = record {
    valid = wrote-IsValid;
    kept = λ q k f. find-set_word s p i e q ∙ f;
    words = λ q k j f l there. elim (Bool-cases ((q == p) && (j == i))) [
      | inl both ↦
          let eq : q ≡ p = ground arith in
          let ei : j ≡ i = ground arith in
          let at : word s q j ≡ word s p i = ap (λ (n : ℕ). word s n j) eq ∙ ap (word s p) ei in
          absurd (true≢false (sym there ∙ ap is_present at ∙ absent))
      | inr other ↦ wrote_keeps q k j f l (ground arith)
    ];
    spaces = refl;
    active = refl;
  }
