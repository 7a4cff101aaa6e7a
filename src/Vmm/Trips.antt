-- ===== src/Vmm/Trips.antt =====
-- Mapping, translation and unmapping together.
use batos_os.Prelude.{
  ℕ, ◌+◌, ◌*◌, ◌/◌, ◌%◌, ◌^◌, ◌<◌, ◌≡◌, inl, inr, sym, ap, ◌∙◌, false, some, arith, Ptr, Bool-cases,
  failed, bit_and, bit_and_offset, bit_or_offset,
}
use batos_os.Vmm.{
  Vmm, word, find_page_table_record, verify_page_table_root, pml4_index, pdpt_index, pd_index,
  pt_index,
}
use batos_os.Vmm.Map.{Request, leaf_entry, map_page}
use batos_os.Vmm.Walk.{translate, translate_pt}
use batos_os.Vmm.Valid.{IsValid, Unchanged-IsValid}
use batos_os.Vmm.Words.{Leads, leaf_entry-Leads}
use batos_os.Vmm.Grow.{Grows}
use batos_os.Vmm.Through.{verify_same}
use batos_os.Vmm.Mapped.{PathTo, HoldsLeaf, root_found, map_page_fails, map_page_works}
use batos_os.Vmm.Paths.{walk_ends}

-- In a valid state, vmm_map_page keeps it valid, whether it works or fails: the frames' allocator
-- is valid, no frame has two records, each table is an aligned frame in use, and entries that are
-- not present are 0.
pub map_page-IsValid :
    {extra : ℕ} {s : Vmm} (q : Request) → IsValid extra s → IsValid extra (map_page s q).1
map_page-IsValid {s = s} q v = elim (Bool-cases (failed (map_page s q).0)) [
  | inl bad ↦ Unchanged-IsValid v (map_page_fails q v bad)
  | inr good ↦ (map_page_works q v good).0.valid
]

pub root_same :
    (s t : Vmm) (p : Ptr)
    → find_page_table_record t p ≡ find_page_table_record s p
    → verify_page_table_root t p ≡ verify_page_table_root s p
unfolding verify_page_table_root
root_same s t p e = ground (arith, verify_same s t p 3 p e)

pub root_kept :
    {extra : ℕ} {s t : Vmm} (p : Ptr)
    → Grows extra s t
    → failed (verify_page_table_root s p) ≡ false
    → failed (verify_page_table_root t p) ≡ false
root_kept {extra} {s} {t} p g h =
    let (r, f) = root_found s p h in ap failed (root_same s t p (g.kept p r f ∙ sym f)) ∙ h

-- The offset in a page changes no index.
pub same_page :
    (a o : ℕ)
    → a % 4096 ≡ 0
    → o < 4096
    → (pml4_index (a + o) ≡ pml4_index a)
      × (pdpt_index (a + o) ≡ pdpt_index a)
      × (pd_index (a + o) ≡ pd_index a)
      × (pt_index (a + o) ≡ pt_index a)
same_page a o h lt = (
  ap (λ (n : ℕ). bit_and n 511) (omega arith),
  ap (λ (n : ℕ). bit_and n 511) (omega arith),
  ap (λ (n : ℕ). bit_and n 511) (omega arith),
  ap (λ (n : ℕ). bit_and n 511) (omega arith),
)

pub path_of_page :
    (Q : Vmm → Ptr → Type 0) (pml4 a o : ℕ) (s : Vmm)
    → a % 4096 ≡ 0
    → o < 4096
    → PathTo Q pml4 a s
    → PathTo Q pml4 (a + o) s
path_of_page Q pml4 a o s h lt path =
    let (e4, e3, e2, e1) = same_page a o h lt in rw e4 (rw e3 (rw e2 path))

translate_leaf :
    (s : Vmm) (a o : ℕ) (pt : Ptr) (p flags : ℕ)
    → a % 4096 ≡ 0
    → o < 4096
    → word s pt (pt_index a) ≡ leaf_entry p flags
    → translate_pt s (a + o) pt ≡ some (p / 4096 % 2 ^ 40 * 4096 + o)
unfolding translate_pt
translate_leaf s a o pt p flags h lt e =
    let le : Leads (leaf_entry p flags) (p / 4096 % 2 ^ 40 * 4096) (1 + flags / 2 % 4 * 2) =
      leaf_entry-Leads p flags in
    let at : word s pt (pt_index (a + o)) ≡ leaf_entry p flags =
      ap (word s pt) (same_page a o h lt).3 ∙ e in
    let off : bit_and (a + o) 4095 ≡ o = omega (arith, bit_and_offset (a + o)) in
    rw at (
      rw le.address (
        rw off (
          ground (arith, le.present, bit_or_offset (p / 4096 % 2 ^ 40 * 4096) o (omega arith) lt))))

-- In a valid state, once vmm_map_page has mapped a page, vmm_translate takes each of its bytes to
-- the byte of the frame, with the frame's address cut to 52 bits.
pub map-translate :
    {extra : ℕ} {s : Vmm} (q : Request) (o : ℕ)
    → IsValid extra s
    → failed (map_page s q).0 ≡ false
    → o < 4096
    → translate (map_page s q).1 q.pml4 (q.virtual_address + o)
      ≡ some (q.physical_address % 2 ^ 52 + o)
map-translate {extra} {s} q o v good lt =
    let (g, path, fine) = map_page_works q v good in
    let al : q.virtual_address % 4096 ≡ 0 = ground (arith, bit_and_offset q.virtual_address) in
    let pl : q.physical_address % 4096 ≡ 0 = ground (arith, bit_and_offset q.physical_address) in
    let root = root_kept q.pml4 g (ground arith) in
    let (pt, nt, leaf, t, i, u) =
      walk_ends (map_page s q).1 q.pml4 (q.virtual_address + o) root (HoldsLeaf q)
        (path_of_page (HoldsLeaf q) q.pml4 q.virtual_address o (map_page s q).1 al lt path) in
    t
    ∙ translate_leaf (map_page s q).1 q.virtual_address o pt q.physical_address q.flags al lt leaf
    ∙ ap (λ (n : ℕ). some (n + o)) (omega arith)
