-- ===== src/Vmm/Words.antt =====
-- The words of page tables: reads after writes, the indices of an address, and the bits of the
-- entries that vmm.c writes.
use batos_os.Prelude.{
  ℕ, zero, suc, ◌+◌, ◌*◌, ◌/◌, ◌%◌, ◌^◌, ◌<◌, ◌≡◌, ◌≢◌, ◌⊎◌, refl, ap, ap₂, ◌∙◌, true, false, arith,
  Ptr, Mem, store, bit_and, bit_or, bit_and-one, bit_and_user, bit_and_leaf, bit_and_huge,
  bit_and_address, bit_or_offset, bit_or_three,
}
use batos_os.Vmm.{
  Vmm, address_mask, is_present, is_huge, word, set_word, zero_words, zero_page, child_entry,
}
use batos_os.Vmm.Map.{leaf_entry}

pub word-set_word_self : (s : Vmm) (t : Ptr) (i e : ℕ) → word (set_word s t i e) t i ≡ e
unfolding word set_word store
word-set_word_self s t i e = ground arith

-- The words of page tables do not overlap.
pub word-set_word_ne :
    (s : Vmm) (t q : Ptr) (i j e : ℕ)
    → t % 4096 ≡ 0
    → q % 4096 ≡ 0
    → i < 512
    → j < 512
    → (q ≢ t) ⊎ (j ≢ i)
    → word (set_word s t i e) q j ≡ word s q j
unfolding word set_word store
word-set_word_ne s t q i j e ht hq hi hj ne = ground arith

zero_words_in : (m : Mem ℕ) (p : Ptr) (n i : ℕ) → i < n → zero_words m p n (p + 8 * i) ≡ 0
unfolding zero_words store
zero_words_in m p zero i h = absurd (omega arith)
zero_words_in m p (suc n) i h = ground (arith, zero_words_in m p n i)

zero_words_out :
    (m : Mem ℕ) (p : Ptr) (n a : ℕ) → ((i : ℕ) → i < n → p + 8 * i ≢ a) → zero_words m p n a ≡ m a
unfolding zero_words store
zero_words_out m p zero a h = refl
zero_words_out m p (suc n) a h =
    ground (arith, h n (omega arith), zero_words_out m p n a (λ i lt. h i (omega arith)))

pub word-zero_page_self : (s : Vmm) (p : Ptr) (i : ℕ) → i < 512 → word (zero_page s p) p i ≡ 0
unfolding word
word-zero_page_self s p i h = zero_words_in s.words p 512 i h

pub word-zero_page_ne :
    (s : Vmm) (p q : Ptr) (i : ℕ)
    → p % 4096 ≡ 0
    → q % 4096 ≡ 0
    → i < 512
    → q ≢ p
    → word (zero_page s p) q i ≡ word s q i
unfolding word
word-zero_page_ne s p q i hp hq h ne =
    zero_words_out s.words p 512 (q + 8 * i) (λ j lt e. ne (omega arith))

-- What the walks read of an entry.
pub record Leads (entry target flags : ℕ) : Type 0 where
  pub present : is_present entry ≡ true
  pub small : is_huge entry ≡ false
  pub address : bit_and entry address_mask ≡ target
  pub low : entry % 8 ≡ flags

leads : (e c f : ℕ) → c % 4096 ≡ 0 → c < 2 ^ 52 → f < 8 → f % 2 ≡ 1 → e ≡ c + f → Leads e c f
leads e c f h lt small odd at = record {
  present = ground (arith, bit_and-one e);
  small = ground (arith, bit_and_huge e);
  address = omega (arith, bit_and_address e);
  low = omega arith;
}

or_user : (u : ℕ) → u < 2 → bit_or 3 (u * 4) ≡ 3 + u * 4
or_user zero h = refl
or_user (suc zero) h = refl
or_user (suc (suc u)) h = absurd (omega arith)

or_leaf : (u : ℕ) → u < 4 → bit_or 1 (u * 2) ≡ 1 + u * 2
or_leaf zero h = refl
or_leaf (suc zero) h = refl
or_leaf (suc (suc zero)) h = refl
or_leaf (suc (suc (suc zero))) h = refl
or_leaf (suc (suc (suc (suc u)))) h = absurd (omega arith)

-- The entry that get_or_create_table writes.
pub child_entry-Leads :
    (c flags : ℕ)
    → c % 4096 ≡ 0
    → c < 2 ^ 52
    → Leads (child_entry c flags) c (3 + flags / 4 % 2 * 4)
child_entry-Leads c flags h lt =
    let user : ℕ = flags / 4 % 2 in
    let added : bit_or c 1 ≡ c + 1 = bit_or_offset c 1 h (omega arith) in
    let both : bit_or (bit_or c 1) 2 ≡ c + 3 =
      ap (λ (t : ℕ). bit_or t 2) added
      ∙ bit_or_three c 1 2 (omega arith) (omega arith) (omega arith) in
    let all : child_entry c flags ≡ c + bit_or 3 (user * 4) =
      ap₂ bit_or both (bit_and_user flags)
      ∙ bit_or_three c 3 (user * 4) (omega arith) (omega arith) (omega arith) in
    leads (child_entry c flags) c (3 + user * 4) h lt (omega arith) (omega arith)
      (all ∙ ap (λ (t : ℕ). c + t) (or_user user (omega arith)))

-- The entry that vmm_map_page writes in the PT.
pub leaf_entry-Leads :
    (p flags : ℕ) → Leads (leaf_entry p flags) (p / 4096 % 2 ^ 40 * 4096) (1 + flags / 2 % 4 * 2)
leaf_entry-Leads p flags =
    let c : ℕ = p / 4096 % 2 ^ 40 * 4096 in
    let leaf : ℕ = flags / 2 % 4 in
    let added : bit_or (bit_and p address_mask) 1 ≡ c + 1 =
      ap (λ (t : ℕ). bit_or t 1) (bit_and_address p)
      ∙ bit_or_offset c 1 (omega arith) (omega arith) in
    let all : leaf_entry p flags ≡ c + bit_or 1 (leaf * 2) =
      ap₂ bit_or added (bit_and_leaf flags)
      ∙ bit_or_three c 1 (leaf * 2) (omega arith) (omega arith) (omega arith) in
    leads (leaf_entry p flags) c (1 + leaf * 2) (omega arith) (omega arith) (omega arith)
      (omega arith) (all ∙ ap (λ (t : ℕ). c + t) (or_leaf leaf (omega arith)))
