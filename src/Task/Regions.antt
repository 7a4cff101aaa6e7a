-- ===== src/Task/Regions.antt =====
-- Where the kernel stacks of kernel/sched/task.c lie in their region.
use batos_os.Prelude.{
  ℕ, ◌+◌, ◌*◌, ◌-◌, ◌^◌, ◌≤◌, ◌<◌, ◌≡◌, arith, inl, inr, Bool-cases, ltb, ◌==◌, ◌||◌, ◌⊎◌, ◌↔◌,
}
use batos_os.Task.Stack.{Region, stack_virtual_for, stack_size, guard_size}

-- The region that linker.ld reserves has 5 MiB, and does not wrap.
abbrev pub IsLinked : Region → Type 0
IsLinked r = (r.end ≡ r.start + 5 * 2 ^ 20) × (r.end < 2 ^ 64)

pub stack_base :
    (r : Region) (id : ℕ)
    → IsLinked r
    → 0 < id
    → id ≤ 256
    → stack_virtual_for r id ≡ r.start + 4096 + (id - 1) * 20480
unfolding stack_virtual_for
stack_base r id (size, fits) pos le = ground arith

no_stack : (r : Region) (id : ℕ) → (id ≡ 0) ⊎ (256 < id) → stack_virtual_for r id ≡ 0
unfolding stack_virtual_for
no_stack r id bad = ground arith

no_stack_iff :
    (r : Region) → IsLinked r → (k : ℕ) → ((k ≡ 0) ⊎ (256 < k)) ↔ (stack_virtual_for r k ≡ 0)
no_stack_iff r v k = (
  no_stack r k,
  λ e. elim (Bool-cases ((k == 0) || ltb 256 k)) [
    | inl bad ↦ ground arith
    | inr good ↦
        let at = stack_base r k v (ground arith) (ground arith) in absurd (omega (arith, at, e))
  ],
)

-- In the region that the linker reserves, the kernel stacks of two identifiers up to 256 lie in
-- the region, each above a guard page, and the stack of the greater identifier and its guard page
-- begin above the other; every identifier that is 0 or greater than 256 has none.
pub stacks_apart :
    (r : Region) (i j : ℕ)
    → IsLinked r
    → 0 < i
    → i < j
    → j ≤ 256
    → (r.start + guard_size ≤ stack_virtual_for r i)
      × (stack_virtual_for r i + stack_size + guard_size ≤ stack_virtual_for r j)
      × (stack_virtual_for r j + stack_size ≤ r.end)
      × ((k : ℕ) → ((k ≡ 0) ⊎ (256 < k)) ↔ (stack_virtual_for r k ≡ 0))
stacks_apart r i j v pos lt le =
    let first = stack_base r i v pos (omega arith) in
    let second = stack_base r j v (omega arith) le in
    (
      omega (arith, first),
      omega (arith, first, second),
      omega (arith, second, v.0),
      no_stack_iff r v,
    )
