-- ===== src/Task/Maps.antt =====
-- What task_map_stack of kernel/sched/task.c has mapped when it returns 0.
use batos_os.Prelude.{
  ℕ, ◌+◌, ◌^◌, ◌%◌, ◌≡◌, arith, inl, inr, refl, Bool-cases, Option-cases, ◌==◌, Ptr, List, some,
  failed, add_u64, true, false, ret, ◌||◌, not, length,
}
use batos_os.Vmm.{Vmm}
use batos_os.Vmm.Valid.{IsValid}
use batos_os.Kernel.{Task}
use batos_os.Task.Stack.{
  Region, page_count, stack_size, map_frames, map_stack, owns_frames, stack_virtual_for,
}
use batos_os.Task.Backs.{Mapped, map_frames_maps, Backs-owns_frames, map_frames-length}

-- A task whose stack `t` maps, its four pages and 16 KiB, where `s` was the state before.
pub record HasStack (extra : ℕ) (r : Region) (task : Task) (s t : Vmm) : Type 0 where
  pub base : task.kernel_stack_base ≡ stack_virtual_for r task.id
  pub top : task.kernel_stack_top ≡ (task.kernel_stack_base + 16384) % 2 ^ 64
  pub four_pages : length task.kernel_stack_pages ≡ 4
  pub maps : Mapped extra s task.address_space task.kernel_stack_base task.kernel_stack_pages t
  pub owns : owns_frames task.address_space task.kernel_stack_base task.kernel_stack_pages t ≡ true

abbrev pub with_stack : Task → ℕ → List ℕ → Task
with_stack task base frames = record task {
  kernel_stack_pages = frames;
  kernel_stack_base = base;
  kernel_stack_top = add_u64 base stack_size;
}

pub map_stack-some :
    (r : Region) (task : Task) (s : Vmm)
    → failed (map_stack r task s).0 ≡ false
    → let base = stack_virtual_for r task.id in
      let mapped = map_frames page_count task.address_space base s in
      (frames : List ℕ) × (mapped.0 ≡ some frames)
      × (map_stack r task s ≡ (ret 0, with_stack task base frames, mapped.1))
unfolding map_stack
map_stack-some r task s h =
    let base : ℕ = stack_virtual_for r task.id in
    let space : Ptr = task.address_space in
    elim (Bool-cases ((base == 0) || not (space == s.kernel_pml4))) [
      | inl refused ↦ absurd (ground arith)
      | inr fine ↦ elim (Option-cases (map_frames page_count space base s).0) [
        | inl stop ↦ absurd (ground arith)
        | inr (frames, e) ↦ (frames, e, ground arith)
      ]
    ]

-- In a valid state, when task_map_stack returns 0, the stack has the base of its identifier, 16
-- KiB and four pages, and vmm_translate takes each byte of the pages to the byte of the task's
-- frame for it, so that the checks of task_unmap_stack pass; no translation is lost, and the state
-- stays valid.
pub map_stack_maps :
    {extra : ℕ} {s : Vmm} (r : Region) (task : Task)
    → IsValid extra s
    → failed (map_stack r task s).0 ≡ false
    → HasStack extra r (map_stack r task s).1 s (map_stack r task s).2
map_stack_maps {extra} {s} r task v h =
    let base : ℕ = stack_virtual_for r task.id in
    let (frames, e, whole) = map_stack-some r task s h in
    let m = map_frames_maps page_count task.address_space base s frames v e in
    let t : Vmm = (map_frames page_count task.address_space base s).1 in
    rw whole (record {
      base = refl;
      top = refl;
      four_pages = map_frames-length page_count base task.address_space s frames e;
      maps = m;
      owns = Backs-owns_frames t task.address_space base frames m.backs;
    })
