-- ===== src/Vmm/Valid.antt =====
-- When the virtual memory manager's state is well formed, and when a failed operation has left it as
-- it was.
use batos_os.Prelude.{
  ℕ, ◌/◌, ◌%◌, ◌^◌, ◌≤◌, ◌<◌, ◌≡◌, refl, sym, ◌∙◌, true, false, some, arith, [], Ptr, find_first,
}
use batos_os.Pmm.{is_used}
use batos_os.Pmm.Count as Count
use batos_os.Vmm.{Vmm, TableRecord, is_present, word, find_page_table_record}
use batos_os.Vmm.Records.{AreUnique}

-- The frames' allocator is valid and its frames lie below 2 ^ 52; no frame has two records in use;
-- the tables are frames that the allocator counts as used; and an entry that is not present is 0.
pub record IsValid (extra : ℕ) (s : Vmm) : Type 0 where
  pub pmm : Count.IsValid extra s.pmm
  pub memory_le : s.pmm.total_frames ≤ 2 ^ 40
  pub unique : AreUnique s.page_table_records
  pub aligned : (q : Ptr) (r : TableRecord) → find_page_table_record s q ≡ some r → q % 4096 ≡ 0
  pub used :
      (q : Ptr) (r : TableRecord)
      → find_page_table_record s q ≡ some r
      → is_used s.pmm (q / 4096) ≡ true
  pub clear :
      (q : Ptr) (r : TableRecord) (i : ℕ)
      → find_page_table_record s q ≡ some r
      → i < 512
      → is_present (word s q i) ≡ false
      → word s q i ≡ 0

-- `t` has the allocator, the tables, the words of the tables and the address spaces of `s`; a
-- record out of use, and the words of a frame that is no table, may differ.
pub record Unchanged (s t : Vmm) : Type 0 where
  pub pmm : t.pmm ≡ s.pmm
  pub unique : AreUnique t.page_table_records
  pub found : (q : Ptr) → find_page_table_record t q ≡ find_page_table_record s q
  pub words :
      (q : Ptr) (r : TableRecord) (i : ℕ)
      → find_page_table_record s q ≡ some r
      → i < 512
      → word t q i ≡ word s q i
  pub spaces : t.address_space_records ≡ s.address_space_records
  pub active : t.active_address_space_pml4 ≡ s.active_address_space_pml4

pub Unchanged_refl : {extra : ℕ} {s : Vmm} → IsValid extra s → Unchanged s s
Unchanged_refl v = record {
  pmm = refl;
  unique = v.unique;
  found = λ q. refl;
  words = λ q r i f lt. refl;
  spaces = refl;
  active = refl;
}

pub Unchanged-IsValid : {extra : ℕ} {s t : Vmm} → IsValid extra s → Unchanged s t → IsValid extra t
Unchanged-IsValid {extra} {s} {t} v u = record {
  pmm = rw u.pmm v.pmm;
  memory_le = rw u.pmm v.memory_le;
  unique = u.unique;
  aligned = λ q r f. v.aligned q r (sym (u.found q) ∙ f);
  used = λ q r f. rw u.pmm (v.used q r (sym (u.found q) ∙ f));
  clear = λ q r i f lt absent.
      let before = sym (u.found q) ∙ f in
      let same = u.words q r i before lt in same ∙ v.clear q r i before lt (rw (← same) absent);
}

-- A manager with no tables yet is valid where the frames' allocator is.
pub empty-IsValid :
    {extra : ℕ} (s : Vmm)
    → Count.IsValid extra s.pmm
    → s.pmm.total_frames ≤ 2 ^ 40
    → s.page_table_records ≡ []
    → IsValid extra s
unfolding find_page_table_record find_first
empty-IsValid s v le none_yet = record {
  pmm = v;
  memory_le = le;
  unique = rw none_yet tt;
  aligned = λ q r f. absurd (ground arith);
  used = λ q r f. absurd (ground arith);
  clear = λ q r i f. absurd (ground arith);
}
