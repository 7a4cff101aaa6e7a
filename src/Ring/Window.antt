-- ===== src/Ring/Window.antt =====
-- Windows of a ring's slots: the entries at consecutive positions, taken modulo the size.
use batos_os.Prelude.{
  ℕ, zero, suc, ◌+◌, ◌%◌, ◌≤◌, ◌<◌, ◌≡◌, refl, ap, ◌≢◌, List, [], ◌∷◌, ◌++◌, arith, Ptr, null,
  length, get_or, set, get_or-set_self, get_or-set_ne,
}

-- The slot that stands for the number `i`, read and written.
abbrev pub slot : List Ptr → ℕ → Ptr
slot tasks i = get_or tasks (i % 256) null

abbrev pub put : List Ptr → ℕ → Ptr → List Ptr
put tasks i v = set tasks (i % 256) v

-- The `n` entries from `h` on.
unfoldable pub window : List Ptr → (h n : ℕ) → List Ptr
window tasks h zero = []
window tasks h (suc n) = slot tasks h ∷ window tasks (h + 1) n

pub length-window : (tasks : List Ptr) (h n : ℕ) → length (window tasks h n) ≡ n
unfolding window
length-window tasks h zero = refl
length-window tasks h (suc n) = ap suc (length-window tasks (h + 1) n)

pub slot-put_self :
    (tasks : List Ptr) (i : ℕ) (v : Ptr) → length tasks ≡ 256 → slot (put tasks i v) i ≡ v
slot-put_self tasks i v h = get_or-set_self tasks (i % 256) v null (omega arith)

pub slot-put_ne :
    (tasks : List Ptr) (i j : ℕ) (v : Ptr)
    → i % 256 ≢ j % 256
    → slot (put tasks i v) j ≡ slot tasks j
slot-put_ne tasks i j v h = get_or-set_ne tasks v null h

-- A write past the window, and less than a round away from its start, leaves it alone.
pub window-put_after :
    (tasks : List Ptr) (h n i : ℕ) (v : Ptr)
    → h + n ≤ i
    → i < h + 256
    → window (put tasks i v) h n ≡ window tasks h n
unfolding window
window-put_after tasks h zero i v p q = refl
window-put_after tasks h (suc n) i v p q = ground (
  arith,
  slot-put_ne tasks i h v (omega arith),
  window-put_after tasks (h + 1) n i v (omega arith) (omega arith),
)

-- So does a write before it, if the window does not come round to it.
pub window-put_before :
    (tasks : List Ptr) (h n i : ℕ) (v : Ptr)
    → i < h
    → h + n ≤ i + 256
    → window (put tasks i v) h n ≡ window tasks h n
unfolding window
window-put_before tasks h zero i v p q = refl
window-put_before tasks h (suc n) i v p q = ground (
  arith,
  slot-put_ne tasks i h v (omega arith),
  window-put_before tasks (h + 1) n i v (omega arith) (omega arith),
)

-- A window depends on its start modulo the size only.
pub window-mod :
    (tasks : List Ptr) (h k n : ℕ) → h % 256 ≡ k % 256 → window tasks h n ≡ window tasks k n
unfolding window
window-mod tasks h k zero e = refl
window-mod tasks h k (suc n) e =
    ground
      (arith, ap (λ i. get_or tasks i null) e, window-mod tasks (h + 1) (k + 1) n (omega arith))

-- A window splits.
pub window-append :
    (tasks : List Ptr) (h n m k : ℕ)
    → k ≡ n + m
    → window tasks h k ≡ window tasks h n ++ window tasks (h + n) m
unfolding window
window-append tasks h zero m k e = ground (arith, window-mod tasks (h + zero) h m (omega arith))
window-append tasks h (suc n) m zero e = absurd (omega arith)
window-append tasks h (suc n) m (suc k) e = ground (
  arith,
  window-append tasks (h + 1) n m k (omega arith),
  window-mod tasks (h + suc n) (h + 1 + n) m (omega arith),
)
