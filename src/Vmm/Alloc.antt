-- ===== src/Vmm/Alloc.antt =====
-- allocate_page_table and release_page_table.
use batos_os.Prelude.{
  ℕ, ◌+◌, ◌*◌, ◌/◌, ◌%◌, ◌^◌, ◌<◌, ◌≡◌, ◌≢◌, ◌⊎◌, inl, inr, refl, sym, ap, ◌∙◌, ◌||◌, true≢false,
  none, some, List, arith, ltb, leb, ◌==◌, Ptr, Option-cases, Bool-cases, find_first, ret, err,
  length, Mem,
}
use batos_os.Pmm.{Pmm, is_used, alloc_frame, free_frame, bitmap_set}
use batos_os.Pmm.Alloc.{Allocated, alloc_allocates}
use batos_os.Pmm.Trips.{free-alloc}
use batos_os.Vmm.{
  Vmm, TableRecord, is_free, filled, blank, word, zero_page, owner_of, register_page_table,
  allocate_page_table, find_page_table_record,
}
use batos_os.Vmm.Records.{
  AreUnique, lookup, reused, appended, lookup-reused_ne, lookup-reused_self, lookup-appended_ne,
  lookup-appended_self, reused-AreUnique, appended-AreUnique,
}
use batos_os.Vmm.Words.{word-zero_page_self, word-zero_page_ne}
use batos_os.Vmm.Valid.{IsValid, Unchanged, Unchanged_refl, Unchanged-IsValid}

pub alloc_frame-total : (p : Pmm) → (alloc_frame p).1.total_frames ≡ p.total_frames
unfolding alloc_frame bitmap_set
alloc_frame-total p = ground arith

-- What register_page_table does: it refuses and changes nothing, or the registry has one more record.
pub record Registered (s : Vmm) (p : Ptr) (level : ℕ) (owner : Ptr) (rs : List TableRecord)
    : Type 0 where
  pub unique : AreUnique rs
  pub other : (q : Ptr) → q ≢ p → lookup rs q ≡ lookup s.page_table_records q
  pub epoch : TableRecord
  pub self : lookup rs p ≡ some (filled p level owner epoch)

pub register_cases :
    (s : Vmm) (p : Ptr) (level : ℕ) (owner : Ptr)
    → AreUnique s.page_table_records
    → lookup s.page_table_records p ≡ none
    → (register_page_table s p level owner ≡ (err 1, s))
      ⊎ ((rs : List TableRecord) × (register_page_table s p level owner
            ≡ (ret 0, record s { page_table_records = rs }))
          × Registered s p level owner rs)
unfolding register_page_table
register_cases s p level owner u miss = elim (Bool-cases ((p == 0) || ltb 3 level)) [
  | inl bad ↦ inl (ground arith)
  | inr fine ↦ elim (Option-cases (find_first is_free s.page_table_records)) [
    | inl none_free ↦ elim (Bool-cases (leb 4096 (length s.page_table_records))) [
      | inl full ↦ inl (ground arith)
      | inr room ↦ inr (
        appended s.page_table_records p level owner,
        ground arith,
        record {
          unique = appended-AreUnique s.page_table_records p level owner u miss;
          other = lookup-appended_ne s.page_table_records p level owner;
          epoch = blank;
          self = lookup-appended_self s.page_table_records p level owner miss;
        },
      )
    ]
    | inr (y, free) ↦ inr (
      reused s.page_table_records p level owner,
      ground arith,
      record {
        unique = reused-AreUnique s.page_table_records p level owner u miss;
        other = lookup-reused_ne s.page_table_records p level owner;
        epoch = y;
        self = lookup-reused_self s.page_table_records p level owner y miss free;
      },
    )
  ]
]

-- What allocate_page_table has done when it returns the table `c`: an empty table in a frame that was
-- free, which the registry gives to its owner.
pub record Made (extra : ℕ) (s : Vmm) (level : ℕ) (owner : Ptr) (c : Ptr) (t : Vmm) : Type 0 where
  pub ne : c ≢ 0
  pub aligned : c % 4096 ≡ 0
  pub lt : c < 2 ^ 52
  pub fresh : find_page_table_record s c ≡ none
  pub valid : IsValid extra t
  pub frees : free_frame t.pmm c ≡ s.pmm
  pub other : (q : Ptr) → q ≢ c → find_page_table_record t q ≡ find_page_table_record s q
  pub epoch : TableRecord
  pub self : find_page_table_record t c ≡ some (filled c level (owner_of level owner c) epoch)
  pub zero : (i : ℕ) → i < 512 → word t c i ≡ 0
  pub words : (q : Ptr) (i : ℕ) → q % 4096 ≡ 0 → i < 512 → q ≢ c → word t q i ≡ word s q i
  pub spaces : t.address_space_records ≡ s.address_space_records
  pub active : t.active_address_space_pml4 ≡ s.active_address_space_pml4

pub find_lookup :
    (s : Vmm) (p : Ptr) → p ≢ 0 → find_page_table_record s p ≡ lookup s.page_table_records p
unfolding find_page_table_record
find_lookup s p ne = ground arith

pub find_same :
    (s t : Vmm) (q : Ptr)
    → lookup t.page_table_records q ≡ lookup s.page_table_records q
    → find_page_table_record t q ≡ find_page_table_record s q
unfolding find_page_table_record
find_same s t q e = ground arith

pub word_same : (s t : Vmm) (q : Ptr) (i : ℕ) → t.words ≡ s.words → word t q i ≡ word s q i
unfolding word
word_same s t q i e = ap (λ (m : Mem ℕ). m (q + 8 * i)) e

module _ {extra : ℕ} (s : Vmm) (v : IsValid extra s) (level : ℕ) (owner : Ptr) (c : Ptr) (pmm : Pmm)
    (at : alloc_frame s.pmm ≡ (c, pmm)) (done : Allocated extra s.pmm c pmm) where
  abbrev cleared : Vmm
  cleared = zero_page (record s { pmm = pmm }) c

  c_ne : c ≢ 0
  c_ne = omega (arith, done.at, done.pos)

  total_same : pmm.total_frames ≡ s.pmm.total_frames
  total_same = ap (λ r. r.1.total_frames) (sym at) ∙ alloc_frame-total s.pmm

  c_lt : c < 2 ^ 52
  c_lt = omega (arith, done.at, done.below, v.memory_le)

  c_aligned : c % 4096 ≡ 0
  c_aligned = omega (arith, done.at)

  c_frame : c / 4096 ≡ done.frame
  c_frame = omega (arith, done.at)

  gives_back : free_frame pmm c ≡ s.pmm
  gives_back =
      let e = free-alloc v.pmm (λ z. c_ne (ap (λ r. r.0) (sym at) ∙ z)) in
      sym (ap (λ r. free_frame r.1 r.0) at) ∙ e

  -- A table is in use, and the frame was not.
  none_here : find_page_table_record s c ≡ none
  none_here = elim (Option-cases (find_page_table_record s c)) [
    | inl miss ↦ miss
    | inr (r, found) ↦
        absurd (true≢false (sym (v.used c r found) ∙ ap (is_used s.pmm) c_frame ∙ done.was_free))
  ]

  other_table : (q : Ptr) (r : TableRecord) → find_page_table_record s q ≡ some r → q ≢ c
  other_table q r f e = absurd (ground (arith, ap (find_page_table_record s) e, none_here))

  refused : Unchanged s (record cleared { pmm = free_frame pmm c })
  refused = record {
    pmm = gives_back;
    unique = v.unique;
    found = λ q. find_same s (record cleared { pmm = free_frame pmm c }) q refl;
    words = λ q r i f lt.
        word_same cleared (record cleared { pmm = free_frame pmm c }) q i refl
        ∙ word-zero_page_ne (record s { pmm = pmm }) c q i c_aligned (v.aligned q r f) lt
            (other_table q r f)
        ∙ word_same s (record s { pmm = pmm }) q i refl;
    spaces = refl;
    active = refl;
  }

  module _ (rs : List TableRecord) (reg : Registered s c level (owner_of level owner c) rs) where
    abbrev made : Vmm
    made = record cleared { page_table_records = rs }

    made_other : (q : Ptr) → q ≢ c → find_page_table_record made q ≡ find_page_table_record s q
    made_other q ne = find_same s made q (reg.other q ne)

    made_words : (q : Ptr) (i : ℕ) → q % 4096 ≡ 0 → i < 512 → q ≢ c → word made q i ≡ word s q i
    made_words q i aligned lt ne =
        word_same cleared made q i refl
        ∙ word-zero_page_ne (record s { pmm = pmm }) c q i c_aligned aligned lt ne
        ∙ word_same s (record s { pmm = pmm }) q i refl

    made_zero : (i : ℕ) → i < 512 → word made c i ≡ 0
    made_zero i lt =
        word_same cleared made c i refl ∙ word-zero_page_self (record s { pmm = pmm }) c i lt

    made-IsValid : IsValid extra made
    made-IsValid = record {
      pmm = done.valid;
      memory_le = omega (arith, total_same, v.memory_le);
      unique = reg.unique;
      aligned = λ q r f. elim (Bool-cases (q == c)) [
        | inl here ↦ let e : q ≡ c = ground arith in rw e c_aligned
        | inr there ↦ v.aligned q r (sym (made_other q (ground arith)) ∙ f)
      ];
      used = λ q r f. elim (Bool-cases (q == c)) [
        | inl here ↦
            let e : q ≡ c = ground arith in rw e (ground (arith, done.takes (c / 4096), c_frame))
        | inr there ↦
            ground
              (arith, done.takes (q / 4096), v.used q r (sym (made_other q (ground arith)) ∙ f))
      ];
      clear = λ q r i f lt absent. elim (Bool-cases (q == c)) [
        | inl here ↦ let e : q ≡ c = ground arith in rw e (made_zero i lt)
        | inr there ↦
            let before = sym (made_other q (ground arith)) ∙ f in
            let same = made_words q i (v.aligned q r before) lt (ground arith) in
            same ∙ v.clear q r i before lt (rw (← same) absent)
      ];
    }

    made-Made : Made extra s level owner c made
    made-Made = record {
      ne = c_ne;
      aligned = c_aligned;
      lt = c_lt;
      fresh = none_here;
      valid = made-IsValid;
      frees = gives_back;
      other = made_other;
      epoch = reg.epoch;
      self = find_lookup made c c_ne ∙ reg.self;
      zero = made_zero;
      words = made_words;
      spaces = refl;
      active = refl;
    }

allocate_none :
    (s : Vmm) (level : ℕ) (owner : Ptr)
    → (alloc_frame s.pmm).0 ≡ 0
    → allocate_page_table s level owner ≡ (0, record s { pmm = (alloc_frame s.pmm).1 })
unfolding allocate_page_table
allocate_none s level owner e = ground arith

module _ (s : Vmm) (level : ℕ) (owner : Ptr) (ne : (alloc_frame s.pmm).0 ≢ 0) where
  abbrev frame : Ptr
  frame = (alloc_frame s.pmm).0

  abbrev empty : Vmm
  empty = zero_page (record s { pmm = (alloc_frame s.pmm).1 }) frame

  allocate_refused :
      register_page_table empty frame level (owner_of level owner frame) ≡ (err 1, empty)
      → allocate_page_table s level owner
        ≡ (0, record empty { pmm = free_frame (alloc_frame s.pmm).1 frame })
  unfolding allocate_page_table
  allocate_refused e = ground (arith, ne)

  allocate_made :
      (rs : List TableRecord)
      → register_page_table empty frame level (owner_of level owner frame)
        ≡ (ret 0, record empty { page_table_records = rs })
      → allocate_page_table s level owner ≡ (frame, record empty { page_table_records = rs })
  unfolding allocate_page_table
  allocate_made rs e = ground (arith, ne)

-- In a valid state, allocate_page_table returns 0 and leaves the state as it was, or makes a table.
pub allocate_page_table_cases :
    {extra : ℕ} (s : Vmm)
    → IsValid extra s
    → (level : ℕ) (owner : Ptr)
    → let (c, t) = allocate_page_table s level owner in
      ((c ≡ 0) × Unchanged s t) ⊎ Made extra s level owner c t
allocate_page_table_cases {extra} s v level owner = elim (alloc_allocates v.pmm) [
  | inr (zero_address, same, full) ↦
      rw (allocate_none s level owner zero_address) (inl (refl, rw same (Unchanged_refl v)))
  | inl done ↦
      let c : Ptr = (alloc_frame s.pmm).0 in
      let pmm : Pmm = (alloc_frame s.pmm).1 in
      let ne : c ≢ 0 = omega (arith, done.at, done.pos) in
      let miss : lookup s.page_table_records c ≡ none =
        sym (find_lookup s c ne) ∙ none_here s v level owner c pmm refl done in
      elim (register_cases (empty s level owner ne) c level (owner_of level owner c) v.unique
        miss) [
          | inl fails ↦
              rw (allocate_refused s level owner ne fails)
                (inl (refl, refused s v level owner c pmm refl done))
          | inr (rs, works, reg) ↦ rw (allocate_made s level owner ne rs works) (
              inr (
                made-Made s v level owner c pmm refl done rs (record {
                  unique = reg.unique;
                  other = reg.other;
                  epoch = reg.epoch;
                  self = reg.self;
                })))
        ]
]

pub allocate_page_table-IsValid :
    {extra : ℕ} (s : Vmm)
    → IsValid extra s
    → (level : ℕ) (owner : Ptr) → IsValid extra (allocate_page_table s level owner).1
allocate_page_table-IsValid s v level owner = elim (allocate_page_table_cases s v level owner) [
  | inl (z, same) ↦ Unchanged-IsValid v same
  | inr m ↦ m.valid
]
