-- ===== src/Ring/Remove.antt =====
-- The compaction loop: the entry at an index goes, and the order of the others stays.
use batos_os.Prelude.{
  ℕ, zero, suc, ◌+◌, ◌-◌, ◌%◌, ◌≤◌, ◌<◌, ◌≡◌, refl, sym, ap, some, erase, erase-append, ap₂, ◌∙◌,
  List, ◌++◌, arith, Ptr, null, length, length-set, add_u64,
}
use batos_os.Ring.{Ring, position, compact_from, remove_at, find}
use batos_os.Ring.Search.{find-Found}
use batos_os.Ring.Window.{
  slot, put, window, slot-put_self, window-put_after, window-put_before, window-append, window-mod,
}
use batos_os.Ring.Valid.{IsValid, contents}

-- One round, with the positions as numbers: the slot of `k` takes the entry of `k + 1`.
compact_from-suc :
    (tasks : List Ptr) (h n i : ℕ)
    → compact_from tasks h (suc n) i
      ≡ compact_from (put tasks (h + i) (slot tasks (h + i + 1))) h n (i + 1)
unfolding compact_from
compact_from-suc tasks h n i =
    let here : position h i ≡ (h + i) % 256 = omega arith in
    let next : position (add_u64 h i) 1 ≡ (h + i + 1) % 256 = omega arith in rw (here, next)

length-compact_from :
    (tasks : List Ptr) (h n i : ℕ) → length (compact_from tasks h n i) ≡ length tasks
unfolding compact_from
length-compact_from tasks h zero i = refl
length-compact_from tasks h (suc n) i = rw (compact_from-suc tasks h n i) (
    length-compact_from (put tasks (h + i) (slot tasks (h + i + 1))) h n (i + 1)
    ∙ length-set tasks ((h + i) % 256) (slot tasks (h + i + 1)))

-- The loop leaves a window alone that ends where it starts and does not come round to it.
window-compact_from_after :
    (tasks : List Ptr) (h n i k m : ℕ)
    → k + m ≤ h + i
    → h + i + n ≤ k + 256
    → window (compact_from tasks h n i) k m ≡ window tasks k m
unfolding compact_from
window-compact_from_after tasks h zero i k m p q = refl
window-compact_from_after tasks h (suc n) i k m p q =
    let next : List Ptr = put tasks (h + i) (slot tasks (h + i + 1)) in
    rw (compact_from-suc tasks h n i) (
      window-compact_from_after next h n (i + 1) k m (omega arith) (omega arith)
      ∙ window-put_after tasks k m (h + i) (slot tasks (h + i + 1)) (omega arith) (omega arith))

-- It moves the `n` entries behind its start one place forward.
window-compact_from :
    (tasks : List Ptr) (h n i : ℕ)
    → length tasks ≡ 256
    → n < 256
    → window (compact_from tasks h n i) (h + i) n ≡ window tasks (h + i + 1) n
unfolding window
window-compact_from tasks h zero i len lt = refl
window-compact_from tasks h (suc n) i len lt =
    let next : List Ptr = put tasks (h + i) (slot tasks (h + i + 1)) in
    let len' : length next ≡ 256 =
      length-set tasks ((h + i) % 256) (slot tasks (h + i + 1)) ∙ len in
    ground (
      arith,
      compact_from-suc tasks h n i,
      window-compact_from_after next h n (i + 1) (h + i) 1 (omega arith) (omega arith),
      slot-put_self tasks (h + i) (slot tasks (h + i + 1)) len,
      window-mod (compact_from next h n (i + 1)) (h + i + 1) (h + (i + 1)) n (omega arith),
      window-compact_from next h n (i + 1) len' (omega arith),
      window-put_before tasks (h + (i + 1) + 1) n (h + i) (slot tasks (h + i + 1)) (omega arith)
          (omega arith),
      window-mod tasks (h + (i + 1) + 1) (h + i + 1 + 1) n (omega arith),
    )

module _ {r : Ring} (j : ℕ) (v : IsValid r) (lt : j < r.count) where
  pub remove_at-IsValid : IsValid (remove_at r j)
  unfolding remove_at
  remove_at-IsValid = record {
    storage =
        length-set _ _ null ∙ length-compact_from r.tasks r.head (r.count - 1 - j) j ∙ v.storage;
    head_in = v.head_in;
    tail_at = omega (arith, v.tail_at);
    fits = omega (arith, v.fits);
    ready = v.ready;
  }

  pub contents-remove_at :
      contents (remove_at r j)
      ≡ window r.tasks r.head j ++ window r.tasks (r.head + (j + 1)) (r.count - 1 - j)
  unfolding remove_at contents
  contents-remove_at =
      let n : ℕ = r.count - 1 - j in
      let after : List Ptr = compact_from r.tasks r.head n j in
      let tail_ok : add_u64 r.tail 255 % 256 ≡ (r.head + (r.count - 1)) % 256 =
        omega (arith, v.tail_at) in
      rw tail_ok (
        window-put_after after r.head (r.count - 1) (r.head + (r.count - 1)) null (omega arith)
          (omega (arith, v.fits))
        ∙ window-append after r.head j n (r.count - 1) (omega arith)
        ∙ ap₂ ◌++◌
            (window-compact_from_after r.tasks r.head n j r.head j (omega arith)
              (omega (arith, v.fits)))
            (window-compact_from r.tasks r.head n j v.storage (omega (arith, v.fits))
              ∙ window-mod r.tasks (r.head + j + 1) (r.head + (j + 1)) n (omega arith)))

-- Removing what a search found takes the first occurrence out of the list.
pub contents-remove_at_found :
    {r : Ring} (t : Ptr) (j : ℕ)
    → IsValid r
    → find r t ≡ some j
    → contents (remove_at r j) ≡ erase t (contents r)
contents-remove_at_found {r} t j v e =
    let f = find-Found r t j e in
    contents-remove_at j v f.index_lt
    ∙ sym (ap (erase t) f.split ∙ erase-append t (window r.tasks r.head j) _ f.before)
