-- ===== src/Vmm/Through.antt =====
-- One level of vmm_map_page: what holds of the rest of the mapping holds of the level and the rest.
use batos_os.Prelude.{
  ℕ, ◌≡◌, ◌≢◌, inl, inr, sym, ap, ◌∙◌, true, false, some, arith, Ptr, Option-cases, Status, failed,
  bit_and,
}
use batos_os.Vmm.{
  Vmm, TableRecord, is_present, is_huge, address_mask, word, verify_existing_child_table,
  find_page_table_record, verify_page_table_record,
}
use batos_os.Vmm.Valid.{IsValid, Unchanged}
use batos_os.Vmm.Grow.{Grows}

pub verified_found :
    (s : Vmm) (c : Ptr) (l : ℕ) (o : Ptr)
    → failed (verify_page_table_record s c l o) ≡ false
    → (r : TableRecord) × (find_page_table_record s c ≡ some r)
unfolding verify_page_table_record
verified_found s c l o h = elim (Option-cases (find_page_table_record s c)) [
  | inl e ↦ absurd (ground arith)
  | inr (r, e) ↦ (r, e)
]

pub verify_same :
    (s t : Vmm) (c : Ptr) (l : ℕ) (o : Ptr)
    → find_page_table_record t c ≡ find_page_table_record s c
    → verify_page_table_record t c l o ≡ verify_page_table_record s c l o
unfolding verify_page_table_record
verify_same s t c l o e = ground arith

pub child_verified :
    (s : Vmm) (e l : ℕ) (o c : Ptr)
    → verify_existing_child_table s e l o ≡ c
    → c ≢ 0
    → (is_present e ≡ true)
      × (is_huge e ≡ false)
      × (bit_and e address_mask ≡ c)
      × (failed (verify_page_table_record s c l o) ≡ false)
unfolding verify_existing_child_table
child_verified s e l o c at ne =
    ground (arith, ap (λ (n : ℕ). failed (verify_page_table_record s n l o)))

pub verified_child :
    (s : Vmm) (e l : ℕ) (o c : Ptr)
    → is_present e ≡ true
    → is_huge e ≡ false
    → bit_and e address_mask ≡ c
    → failed (verify_page_table_record s c l o) ≡ false
    → verify_existing_child_table s e l o ≡ c
unfolding verify_existing_child_table
verified_child s e l o c here small at good =
    ground (arith, ap (λ (n : ℕ). failed (verify_page_table_record s n l o)) at)

-- A child that is verified has a record, and stays the child while the tables grow.
pub child_found :
    (s : Vmm) (e l : ℕ) (o c : Ptr)
    → verify_existing_child_table s e l o ≡ c
    → c ≢ 0
    → (r : TableRecord) × (find_page_table_record s c ≡ some r)
child_found s e l o c at ne =
    let (a, b, d, good) = child_verified s e l o c at ne in verified_found s c l o good

pub child_kept :
    {extra : ℕ} {s t : Vmm} (e l : ℕ) (o c : Ptr)
    → Grows extra s t
    → verify_existing_child_table s e l o ≡ c
    → c ≢ 0
    → verify_existing_child_table t e l o ≡ c
child_kept {extra} {s} {t} e l o c g at ne =
    let (here, small, address, good) = child_verified s e l o c at ne in
    let (r, f) = verified_found s c l o good in
    verified_child t e l o c here small address
      (ap failed (verify_same s t c l o (g.kept c r f ∙ sym f)) ∙ good)

-- A step of a mapping at a table: when it fails, it leaves the state as it was; when it works, the
-- tables have grown and `Q` holds of the table.
pub record Transacts (extra : ℕ) (step : Vmm → Ptr → Status × Vmm) (Q : Vmm → Ptr → Type 0)
    : Type 0 where
  pub fails :
      (s : Vmm) (p : Ptr) (r : TableRecord)
      → IsValid extra s
      → find_page_table_record s p ≡ some r
      → failed (step s p).0 ≡ true
      → Unchanged s (step s p).1
  pub works :
      (s : Vmm) (p : Ptr) (r : TableRecord)
      → IsValid extra s
      → find_page_table_record s p ≡ some r
      → failed (step s p).0 ≡ false
      → Grows extra s (step s p).1 × Q (step s p).1 p

-- The entry `i` leads to a table of which `Q` holds.
abbrev pub Below : ℕ → Ptr → ℕ → (Vmm → Ptr → Type 0) → Vmm → Ptr → Type 0
Below l o i Q s p =
    (c : Ptr) × (c ≢ 0) × (verify_existing_child_table s (word s p i) l o ≡ c) × Q s c
