-- ===== src/Ring/Valid.antt =====
-- The representation invariant of a ring, the FIFO list that it stands for, and its two ends.
use batos_os.Prelude.{
  ℕ, zero, suc, ◌+◌, ◌-◌, ◌%◌, ◌≤◌, ◌<◌, ◌≡◌, refl, sym, ap, ◌∙◌, ◌≢◌, ◌⊎◌, inl, inr, Bool-cases,
  ◌==◌, true, List, [], ◌∷◌, ◌++◌, arith, Ptr, null, length, set, length-set, length-replicate,
  get_or,
}
use batos_os.Ring.{Ring, empty, push, front, pop, position}
use batos_os.Ring.Window.{
  put, window, length-window, slot-put_self, window-put_after, window-put_before, window-append,
  window-mod,
}

pub record IsValid (r : Ring) : Type 0 where
  pub storage : length r.tasks ≡ 256
  pub head_in : r.head < 256
  pub tail_at : r.tail ≡ (r.head + r.count) % 256
  pub fits : r.count ≤ 256
  pub ready : r.initialized ≡ true

-- The entries, oldest first.
unfoldable pub contents : Ring → List Ptr
contents r = window r.tasks r.head r.count

pub length-contents : (r : Ring) → length (contents r) ≡ r.count
unfolding contents
length-contents r = length-window r.tasks r.head r.count

pub empty-IsValid : IsValid empty
unfolding empty
empty-IsValid = record {
  storage = length-replicate 256 null;
  head_in = omega arith;
  tail_at = refl;
  fits = omega arith;
  ready = refl;
}

pub contents-empty : contents empty ≡ []
unfolding contents empty window
contents-empty = refl

pub push-IsValid : {r : Ring} (t : Ptr) → IsValid r → r.count < 256 → IsValid (push r t)
unfolding push
push-IsValid {r} t v h = record {
  storage = length-set r.tasks r.tail t ∙ v.storage;
  head_in = v.head_in;
  tail_at = omega (arith, v.tail_at, v.fits, v.head_in);
  fits = omega arith;
  ready = v.ready;
}

window-snoc :
    (tasks : List Ptr) (h n : ℕ) (t : Ptr)
    → length tasks ≡ 256
    → n < 256
    → window (put tasks (h + n) t) h (n + 1) ≡ window tasks h n ++ t ∷ []
unfolding window
window-snoc tasks h n t len lt =
    window-append (put tasks (h + n) t) h n 1 (n + 1) refl
    ∙ ground (
      arith,
      window-put_after tasks h n (h + n) t (omega arith) (omega arith),
      slot-put_self tasks (h + n) t len,
    )

pub contents-push :
    {r : Ring} (t : Ptr) → IsValid r → r.count < 256 → contents (push r t) ≡ contents r ++ t ∷ []
unfolding push contents
contents-push {r} t v h = ground (
  arith,
  window-snoc r.tasks r.head r.count t v.storage h,
  ap (λ i. window (set r.tasks i t) r.head (r.count + 1)) v.tail_at,
)

pub pop-IsValid : {r : Ring} → IsValid r → r.count ≢ 0 → IsValid (pop r)
unfolding pop
pop-IsValid {r} v h = record {
  storage = length-set r.tasks r.head null ∙ v.storage;
  head_in = omega arith;
  tail_at = omega (arith, v.tail_at, v.head_in);
  fits = omega (arith, v.fits);
  ready = v.ready;
}

-- After a pop the rest of the window stands where it stood.
window-pop :
    (tasks : List Ptr) (h n : ℕ)
    → h < 256
    → n < 256
    → window (set tasks h null) (position h 1) n ≡ window tasks (h + 1) n
window-pop tasks h n lt le =
    let same : h % 256 ≡ h = omega arith in
    window-mod (set tasks h null) (position h 1) (h + 1) n (omega arith)
    ∙ ap (λ i. window (set tasks i null) (h + 1) n) (sym same)
    ∙ window-put_before tasks (h + 1) n h null (omega arith) (omega arith)

window_of_ne_zero :
    (tasks : List Ptr) (h n : ℕ)
    → h < 256
    → n ≢ 0
    → window tasks h n ≡ get_or tasks h null ∷ window tasks (h + 1) (n - 1)
unfolding window
window_of_ne_zero tasks h zero lt ne = absurd (ne refl)
window_of_ne_zero tasks h (suc n) lt ne =
    let same : h % 256 ≡ h = omega arith in
    let less : suc n - 1 ≡ n = omega arith in rw (same, less)

-- A pop takes the front off the list.
pub front-pop-contents :
    {r : Ring} → IsValid r → r.count ≢ 0 → contents r ≡ front r ∷ contents (pop r)
unfolding front pop contents
front-pop-contents {r} v h =
    window_of_ne_zero r.tasks r.head r.count v.head_in h
    ∙ ap (◌∷◌ (get_or r.tasks r.head null))
        (sym (window-pop r.tasks r.head (r.count - 1) v.head_in (omega (arith, v.fits))))

-- A ring is empty, with count 0, or has a front.
pub Ring-cases :
    {r : Ring}
    → IsValid r
    → ((r.count ≡ 0) × (contents r ≡ []))
      ⊎ ((r.count ≢ 0) × (contents r ≡ front r ∷ contents (pop r)))
unfolding contents window
Ring-cases {r} v = elim (Bool-cases (r.count == 0)) [
  | inl e ↦ let z : r.count ≡ 0 = ground arith in inl (z, ap (window r.tasks r.head) z)
  | inr e ↦ let nz : r.count ≢ 0 = ground arith in inr (nz, front-pop-contents v nz)
]
