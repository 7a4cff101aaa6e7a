-- ===== src/Task/Stack.antt =====
-- kernel/sched/task.c: task_stack_virtual_for, task_map_stack and task_unmap_stack. The stacks stand
-- in the region that kernel/linker.ld reserves, and their pages are mapped by the manager of Vmm.
use batos_os.Prelude.{
  ℕ, zero, suc, ◌+◌, ◌*◌, ◌-◌, ◌&&◌, ◌||◌, Bool, true, false, not, Option, none, some, List, [],
  ◌∷◌, Ptr, Status, ret, err, failed, ltb, ◌==◌, if◌then◌else◌, add_u64,
}
use batos_os.Ring.{max_tasks}
use batos_os.Pmm.{alloc_frame, free_frame}
use batos_os.Kernel.{Task}
use batos_os.Vmm.{Vmm}
use batos_os.Vmm.Map.{map_page, unmap_page}
use batos_os.Vmm.Walk.{translate}

-- The linker's `__task_stack_start` and `__task_stack_end`.
pub record Region : Type 0 where
  pub start : ℕ
  pub end : ℕ

abbrev pub page_size : ℕ
page_size = 4096

abbrev pub page_count : ℕ
page_count = 4

abbrev pub stack_size : ℕ
stack_size = page_count * 4096

abbrev pub guard_size : ℕ
guard_size = 4096

abbrev pub slot_size : ℕ
slot_size = stack_size + guard_size

unfoldable pub stack_virtual_for : Region → ℕ → ℕ
stack_virtual_for r id =
    if (id == 0) || ltb max_tasks id
    then 0
    else let offset = (id - 1) * slot_size in
      let base = add_u64 (add_u64 r.start guard_size) offset in
      let end = add_u64 base stack_size in
      if ltb base r.start || ltb end base || ltb r.end end then 0 else base

-- The first loop of task_map_stack, over the `n` pages from `address`: the frames of the pages, or
-- none where it goes to `rollback`.
unfoldable pub map_frames : ℕ → Ptr → ℕ → Vmm → Option (List ℕ) × Vmm
map_frames zero space address s = (some [], s)
map_frames (suc n) space address s =
    let (frame, pmm) = alloc_frame s.pmm in
    let s1 = record s { pmm = pmm } in
    elim (frame == 0) [
      | true ↦ (none, s1)
      | false ↦
          let (status, s2) = map_page s1 (record {
            pml4 = space;
            virtual_address = address;
            physical_address = frame;
            flags = 2;
          }) in
          elim (failed status) [
            | true ↦ (none, record s2 { pmm = free_frame s2.pmm frame })
            | false ↦
                let (rest, s3) = map_frames n space (add_u64 address page_size) s2 in
                (elim rest [ some frames ↦ some (frame ∷ frames) | none ↦ none ], s3)
          ]
    ]

-- The loop at `rollback`, which takes every page of the stack that can be unmapped.
unfoldable pub roll_back : ℕ → Ptr → ℕ → Vmm → Vmm
roll_back zero space address s = s
roll_back (suc n) space address s =
    let (unmapped, s1) = unmap_page s space address in
    roll_back n space (add_u64 address page_size)
      (elim unmapped [ some physical ↦ record s1 { pmm = free_frame s1.pmm physical } | none ↦ s1 ])

abbrev pub no_frames : List ℕ
no_frames = 0 ∷ 0 ∷ 0 ∷ 0 ∷ []

unfoldable pub map_stack : Region → Task → Vmm → Status × Task × Vmm
map_stack r task s =
    let base = stack_virtual_for r task.id in
    if base == 0
    then (err 1, task, s)
    else if not (task.address_space == s.kernel_pml4)
    then (err 1, task, s)
    else let (mapped, s1) = map_frames page_count task.address_space base s in
      elim mapped [
        | some frames ↦ (
          ret 0,
          record task {
            kernel_stack_pages = frames;
            kernel_stack_base = base;
            kernel_stack_top = add_u64 base stack_size;
          },
          s1,
        )
        | none ↦ (
          err 1,
          record task { kernel_stack_pages = no_frames },
          roll_back page_count task.address_space base s1,
        )
      ]

-- The checks before a stack is taken apart: each page is mapped to the task's own frame.
unfoldable pub owns_frames : Ptr → ℕ → List ℕ → Vmm → Bool
owns_frames space address [] s = true
owns_frames space address (frame ∷ frames) s = elim (translate s space address) [
  | none ↦ false
  | some physical ↦ (physical == frame) && owns_frames space (add_u64 address page_size) frames s
]

-- The second loop of task_unmap_stack. The frames that are left are those of the pages it has not
-- come to.
unfoldable pub unmap_frames : Ptr → ℕ → List ℕ → Vmm → Status × List ℕ × Vmm
unmap_frames space address [] s = (ret 0, [], s)
unmap_frames space address (frame ∷ frames) s =
    let (unmapped, s1) = unmap_page s space address in
    elim unmapped [
      | none ↦ (err 1, frame ∷ frames, s1)
      | some physical ↦ elim (physical == frame) [
        | false ↦ (err 1, frame ∷ frames, s1)
        | true ↦
            let (status, left, s2) =
              unmap_frames space (add_u64 address page_size) frames
                (record s1 { pmm = free_frame s1.pmm physical }) in
            (status, 0 ∷ left, s2)
      ]
    ]

unfoldable pub unmap_stack : Task → Vmm → Status × Task × Vmm
unmap_stack task s =
    if task.kernel_stack_base == 0
    then (err 1, task, s)
    else if not (owns_frames task.address_space task.kernel_stack_base task.kernel_stack_pages s)
    then (err 1, task, s)
    else let (status, frames, s1) =
        unmap_frames task.address_space task.kernel_stack_base task.kernel_stack_pages s in
      (status, record task { kernel_stack_pages = frames }, s1)
