-- ===== src/Vmm/Active.antt =====
-- vmm_activate_address_space and vmm_create_address_space: one address space is active at a time.
use batos_os.Prelude.{
  ℕ, ◌≡◌, ◌≢◌, ◌⊎◌, inl, inr, refl, sym, ap, ◌∙◌, true, false, true≢false, none, some, List, arith,
  ◌==◌, ◌&&◌, ◌||◌, Ptr, ret, err, failed, bit_and, Bool-cases, Option-cases,
  find_first-update_found, find_first-update_ne,
}
use batos_os.Vmm.{Vmm, SpaceRecord, address_mask, verify_page_table_root}
use batos_os.Vmm.Spaces.{
  active, inactive, is_space, write_space, with_state, write_cr3, find_address_space_record,
  get_address_space_state, leave_previous, enter, activate_address_space,
}

-- Only the root that vmm.c keeps as the active one can have the state ACTIVE.
abbrev pub OneActive : Vmm → Type 0
OneActive s =
    (q : Ptr) → get_address_space_state s q ≡ some active → q ≡ s.active_address_space_pml4

module _ (rs : List SpaceRecord) (state : ℕ) (p : Ptr) where
  find-write_self :
      (r : SpaceRecord)
      → find_address_space_record rs p ≡ some r
      → find_address_space_record (write_space (with_state state) p rs) p
        ≡ some (with_state state r)
  unfolding find_address_space_record
  find-write_self r f =
      ground (arith, find_first-update_found (is_space p) (with_state state) (λ x h. h) rs r)

  find-write_ne :
      (q : Ptr)
      → q ≢ p
      → find_address_space_record (write_space (with_state state) p rs) q
        ≡ find_address_space_record rs q
  unfolding find_address_space_record
  find-write_ne q ne = ground (
    arith,
    find_first-update_ne (is_space q) (is_space p) (with_state state) (λ x h. ground (arith, ne))
        rs,
  )

state_of :
    (s : Vmm) (p : Ptr) (r : SpaceRecord)
    → find_address_space_record s.address_space_records p ≡ some r
    → get_address_space_state s p ≡ some r.state
unfolding get_address_space_state find_address_space_record
state_of s p r f = ground arith

state_same :
    (s t : Vmm) (p : Ptr)
    → find_address_space_record t.address_space_records p
      ≡ find_address_space_record s.address_space_records p
    → get_address_space_state t p ≡ get_address_space_state s p
unfolding get_address_space_state
state_same s t p e = ground arith

no_root : (s : Vmm) → get_address_space_state s 0 ≡ none
unfolding get_address_space_state
no_root s = refl

state_none :
    (s : Vmm) (p : Ptr)
    → find_address_space_record s.address_space_records p ≡ none
    → get_address_space_state s p ≡ none
unfolding get_address_space_state
state_none s p f = ground arith

module _ (s : Vmm) (pml4 : Ptr) where
  abbrev previous : Ptr
  previous = s.active_address_space_pml4

  abbrev moved : Vmm
  moved = record s {
    address_space_records = write_space (with_state inactive) previous s.address_space_records;
  }

  -- The space that was active has become inactive, where there was another.
  left_cases :
      (leave_previous s pml4 ≡ s)
        × ((previous ≡ 0) ⊎ ((previous ≡ pml4) ⊎ (get_address_space_state s previous ≡ none)))
      ⊎ ((leave_previous s pml4 ≡ moved)
          × ((r : SpaceRecord) × (find_address_space_record s.address_space_records previous
                ≡ some r)))
  unfolding leave_previous
  left_cases = elim (Option-cases (find_address_space_record s.address_space_records previous)) [
    | inl miss ↦ inl (ground arith, inr (inr (state_none s previous miss)))
    | inr (r, f) ↦ elim (Bool-cases ((previous == 0) || (previous == pml4))) [
      | inl stay ↦ inl (ground arith, ground arith)
      | inr go ↦ inr (ground arith, (r, f))
    ]
  ]

  -- After leave_previous, no root but `pml4` is active.
  left_none :
      OneActive s
      → (q : Ptr) → q ≢ pml4
      → get_address_space_state (leave_previous s pml4) q ≢ some active
  left_none one q ne h = elim left_cases [
    | inl (same, why) ↦
        let before : get_address_space_state s q ≡ some active =
          ap (λ u. get_address_space_state u q) (sym same) ∙ h in
        let at : q ≡ previous = one q before in
        let there : get_address_space_state s previous ≡ some active =
          ap (get_address_space_state s) (sym at) ∙ before in
        elim why [
          | inl zero_root ↦
              let e : get_address_space_state s previous ≡ none =
                ap (get_address_space_state s) zero_root ∙ no_root s in
              absurd (cc)
          | inr (inl here) ↦ ne (at ∙ here)
          | inr (inr miss) ↦ absurd (cc)
        ]
    | inr (eq, (r, f)) ↦
        let after : get_address_space_state moved q ≡ some active =
          ap (λ u. get_address_space_state u q) (sym eq) ∙ h in
        elim (Bool-cases (q == previous)) [
          | inl here ↦
              let at : q ≡ previous = ground arith in
              let now : get_address_space_state moved previous ≡ some inactive =
                state_of moved previous (with_state inactive r)
                  (find-write_self s.address_space_records inactive previous r f) in
              let both : get_address_space_state moved previous ≡ some active =
                ap (get_address_space_state moved) (sym at) ∙ after in
              absurd (ground arith)
          | inr there ↦
              let far : q ≢ previous = ground arith in
              let same =
                state_same s moved q
                  (find-write_ne s.address_space_records inactive previous q far) in
              far (one q (sym same ∙ after))
        ]
  ]

  left_found :
      (r : SpaceRecord)
      → find_address_space_record s.address_space_records pml4 ≡ some r
      → (k : SpaceRecord) × (find_address_space_record
            (leave_previous s pml4).address_space_records
            pml4
          ≡ some k)
  unfolding leave_previous
  left_found r f = elim (Bool-cases (previous == pml4)) [
    | inl here ↦ (r, ground arith)
    | inr there ↦ elim (Option-cases (find_address_space_record s.address_space_records previous)) [
      | inl miss ↦ (r, ground arith)
      | inr (k, g) ↦
          let same = find-write_ne s.address_space_records inactive previous pml4 (ground arith) in
          (r, ground (arith, same))
    ]
  ]

  enter_one :
      OneActive s
      → (r : SpaceRecord) → find_address_space_record s.address_space_records pml4 ≡ some r
      → OneActive (enter s pml4)
        × (get_address_space_state (enter s pml4) pml4 ≡ some active)
        × ((enter s pml4).active_address_space_pml4 ≡ pml4)
  unfolding enter
  enter_one one r f =
      let rs = (leave_previous s pml4).address_space_records in
      let (k, g) = left_found r f in
      (
        λ q h. elim (Bool-cases (q == pml4)) [
          | inl here ↦ ground arith
          | inr there ↦
              let ne : q ≢ pml4 = ground arith in
              let same =
                state_same (leave_previous s pml4) (enter s pml4) q
                  (find-write_ne rs active pml4 q ne) in
              absurd (left_none one q ne (sym same ∙ h))
        ],
        state_of (enter s pml4) pml4 (with_state active k) (find-write_self rs active pml4 k g),
        refl,
      )

  activate_cases :
      (activate_address_space s pml4 ≡ (err 1, s))
      ⊎ ((activate_address_space s pml4 ≡ (err 1, write_cr3 s pml4))
          ⊎ ((r : SpaceRecord) × (find_address_space_record s.address_space_records pml4 ≡ some r)
              × (((activate_address_space s pml4 ≡ (ret 0, s))
                    × (s.active_address_space_pml4 ≡ pml4)
                    × (r.state ≡ active))
                  ⊎ (activate_address_space s pml4 ≡ (ret 0, enter (write_cr3 s pml4) pml4)))))
  unfolding activate_address_space
  activate_cases = elim (Option-cases (find_address_space_record s.address_space_records pml4)) [
    | inl miss ↦ inl (ground arith)
    | inr (r, f) ↦ elim (Bool-cases ((pml4 == 0) || failed (verify_page_table_root s pml4))) [
      | inl bad ↦ inl (ground arith)
      | inr good ↦
          elim (Bool-cases ((s.active_address_space_pml4 == pml4) && (r.state == active))) [
            | inl already ↦ inr (inr (r, f, inl (ground arith, ground arith, ground arith)))
            | inr change ↦ elim (Bool-cases (bit_and pml4 address_mask == pml4)) [
              | inl loaded ↦ inr (inr (r, f, inr (ground arith)))
              | inr lost ↦ inr (inl (ground arith))
            ]
          ]
    ]
  ]

cr3_one : (s : Vmm) (p : Ptr) → OneActive s → OneActive (write_cr3 s p)
cr3_one s p one q h = one q (sym (state_same s (write_cr3 s p) q refl) ∙ h)

-- When at most the kept root is active, it is so after vmm_activate_address_space. A call that
-- works makes its root the active one; a call that fails leaves the address spaces.
pub activate_one :
    (s : Vmm) (pml4 : Ptr)
    → OneActive s
    → let (status, t) = activate_address_space s pml4 in
      OneActive t
      × (failed status ≡ false
          → (get_address_space_state t pml4 ≡ some active) × (t.active_address_space_pml4 ≡ pml4))
      × (failed status ≡ true → t.address_space_records ≡ s.address_space_records)
activate_one s pml4 one = elim (activate_cases s pml4) [
  | inl refused ↦ rw refused (one, λ h. absurd (true≢false h), λ h. refl)
  | inr (inl lost) ↦ rw lost (cr3_one s pml4 one, λ h. absurd (true≢false h), λ h. refl)
  | inr (inr (r, f, inl (same, at, state))) ↦
      rw same (one, λ h. (state_of s pml4 r f ∙ ap (λ (n : ℕ). some n) state, at), λ h. refl)
  | inr (inr (r, f, inr done)) ↦
      let (all, now, at) = enter_one (write_cr3 s pml4) pml4 (cr3_one s pml4 one) r f in
      rw done (all, λ h. (now, at), λ h. absurd (true≢false (sym h)))
]
