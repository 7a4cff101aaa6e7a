-- ===== src/Task/Created.antt =====
-- What task_create of kernel/sched/task.c has made when it returns 0.
use batos_os.Prelude.{
  ℕ, ◌+◌, ◌-◌, ◌%◌, ◌^◌, ◌≤◌, ◌<◌, ◌≡◌, ◌≢◌, arith, inl, inr, refl, sym, ap, ◌∙◌, Bool-cases, ◌==◌,
  ◌||◌, Ptr, null, failed, ret, store_self, ltb, add_u64, false,
}
use batos_os.Ring.{max_tasks}
use batos_os.Kernel.{Task, ready, new, bootstrap_trampoline, set_task}
use batos_os.Task.Stack.{Region, map_stack, stack_virtual_for, map_frames, page_count}
use batos_os.Task.Regions.{IsLinked, stack_base}
use batos_os.Task.Maps.{HasStack, map_stack_maps, map_stack-some, with_stack}
use batos_os.Vmm.{Vmm}
use batos_os.Vmm.Valid.{IsValid}
use batos_os.Task.Create.{Machine, fresh, create, complete}
use batos_os.Task.Complete.{prepared, Completed, complete-Completed}

-- A READY task that task_create has made in `m`: its saved context starts the bootstrap code on its
-- own stack, at the return slot and the task's address, and the frame of the first run ends right
-- below them, is aligned to 16 and lies in the stack.
pub record Created (extra : ℕ) (r : Region) (m : Machine) (t : Ptr) (id space : ℕ) (n : Machine)
    : Type 0 where
  pub named : (n.kernel.tasks t).id ≡ id
  pub in_space : (n.kernel.tasks t).address_space ≡ space
  pub is_ready : (n.kernel.tasks t).state ≡ ready
  pub stack : HasStack extra r (n.kernel.tasks t) m.vmm n.vmm
  pub starts : (n.kernel.tasks t).context.rip ≡ bootstrap_trampoline
  pub pops : (n.kernel.tasks t).context.rsp + 24 ≡ (n.kernel.tasks t).kernel_stack_top
  pub return_slot : n.stack_words (n.kernel.tasks t).context.rsp ≡ 0
  pub task_slot : n.stack_words ((n.kernel.tasks t).context.rsp + 8) ≡ t
  pub frame_valid : (n.kernel.tasks t).preempt_state.valid ≡ 1
  pub frame_in :
      (n.kernel.tasks t).kernel_stack_base ≤ (n.kernel.tasks t).preempt_state.frame_address
  pub frame_below :
      (n.kernel.tasks t).preempt_state.frame_address + 152 ≡ (n.kernel.tasks t).context.rsp
  pub frame_aligned : (n.kernel.tasks t).preempt_state.frame_address % 16 ≡ 0

module _ (extra : ℕ) (r : Region) (m m1 n : Machine) (t : Ptr) (task : Task)
    (at : m1.kernel.tasks t ≡ task) (hs : HasStack extra r task m.vmm m1.vmm) (c : Completed m1 t n)
    (room : task.kernel_stack_base + 176 ≤ task.kernel_stack_top)
    (even : task.kernel_stack_top % 16 ≡ 0) where
  end_task : n.kernel.tasks t ≡ prepared task
  end_task = c.task ∙ ap prepared at

  keeps_stack : HasStack extra r (prepared task) m.vmm n.vmm
  keeps_stack = rw c.vmm (record {
    base = hs.base;
    top = hs.top;
    four_pages = hs.four_pages;
    maps = hs.maps;
    owns = hs.owns;
  })

  Completed-Created : Created extra r m t task.id task.address_space n
  Completed-Created = record {
    named = rw end_task refl;
    in_space = rw end_task refl;
    is_ready = rw end_task refl;
    stack = rw end_task keeps_stack;
    starts = rw end_task refl;
    pops = rw end_task (omega (arith, room));
    return_slot = rw end_task (rw (← at) c.return_slot);
    task_slot = rw end_task (
        ap n.stack_words (omega (arith, room))
        ∙ ap (λ (p : Task). n.stack_words (p.kernel_stack_top - 16)) (sym at)
        ∙ c.task_slot);
    frame_valid = rw end_task refl;
    frame_in = rw end_task (omega (arith, room));
    frame_below = rw end_task (omega (arith, room));
    frame_aligned = rw end_task (omega (arith, room, even));
  }

create_completes :
    (r : Region) (m : Machine) (t : Ptr) (id space : ℕ) (entry : Ptr) (argument : ℕ) (task : Task)
    (vmm : Vmm)
    → ((t == null) || (id == 0) || ltb max_tasks id || (space == 0) || (entry == null)) ≡ false
    → map_stack r (fresh id space entry argument) m.vmm ≡ (ret 0, task, vmm)
    → create r m t id space entry argument
      ≡ complete (record m { kernel = set_task m.kernel t task; vmm = vmm }) t
unfolding create
create_completes r m t id space entry argument task vmm fine whole = rw whole (ground (arith, fine))

-- task_create from a stack on that is mapped, at a base in the region.
stack_creates :
    (extra : ℕ) (r : Region) (m : Machine) (t : Ptr) (task : Task) (vmm : Vmm) (base : ℕ)
    → t ≢ null
    → task.state ≡ new
    → task.kernel_stack_base ≡ base
    → task.kernel_stack_top ≡ base + 16384
    → 0 < base
    → base + 16384 < 2 ^ 64
    → base % 4096 ≡ 0
    → HasStack extra r task m.vmm vmm
    → let m1 = record m { kernel = set_task m.kernel t task; vmm = vmm } in
      Created extra r m t task.id task.address_space (complete m1 t).1
stack_creates extra r m t task vmm base ne is_new at top pos fits al hs =
    let m1 : Machine = record m { kernel = set_task m.kernel t task; vmm = vmm } in
    let own : m1.kernel.tasks t ≡ task = store_self m.kernel.tasks t task in
    let b = ap (λ (p : Task). p.kernel_stack_base) own ∙ at in
    let e = ap (λ (p : Task). p.kernel_stack_top) own ∙ top in
    let not_zero : (m1.kernel.tasks t).kernel_stack_base ≢ 0 = omega (arith, b, pos) in
    let room : (m1.kernel.tasks t).kernel_stack_base + 176 ≤ (m1.kernel.tasks t).kernel_stack_top =
      omega (arith, b, e) in
    let below : (m1.kernel.tasks t).kernel_stack_top < 2 ^ 64 = omega (arith, e, fits) in
    let even : (m1.kernel.tasks t).kernel_stack_top % 16 ≡ 0 = omega (arith, e, al) in
    let start = ap (λ (p : Task). p.state) own ∙ is_new in
    Completed-Created extra r m m1 (complete m1 t).1 t task own hs
      (complete-Completed m1 t ne not_zero room below even start) (omega (arith, at, top))
      (omega (arith, top, al))

-- In a valid state, with the stacks' region that the linker reserves at a multiple of 4096, a task
-- that task_create makes, when it returns 0, is READY on a stack of 16 KiB of its own, whose four
-- pages are mapped whole: its saved context starts the bootstrap code with the stack pointer at
-- the return slot, 24 bytes below the top, with the task's address above it, and the frame of its
-- first run lies in the stack, ends right below the return slot, and is aligned to 16.
pub create_creates :
    {extra : ℕ} {m : Machine} (r : Region) (t : Ptr) (id space : ℕ) (entry : Ptr) (argument : ℕ)
    → IsValid extra m.vmm
    → IsLinked r
    → r.start % 4096 ≡ 0
    → failed (create r m t id space entry argument).0 ≡ false
    → Created extra r m t id space (create r m t id space entry argument).1
unfolding create
create_creates {extra} {m} r t id space entry argument v l al h =
    let task : Task = fresh id space entry argument in
    let got = map_stack r task m.vmm in
    elim (Bool-cases
      ((t == null) || (id == 0) || ltb max_tasks id || (space == 0) || (entry == null))) [
        | inl bad ↦ absurd (ground arith)
        | inr fine ↦ elim (Bool-cases (failed got.0)) [
          | inl out ↦ absurd (ground arith)
          | inr good ↦
              let (frames, e, whole) = map_stack-some r task m.vmm good in
              let base : ℕ = stack_virtual_for r id in
              let stacked : Task = with_stack task base frames in
              let vmm : Vmm = (map_frames page_count space base m.vmm).1 in
              let at = stack_base r id l (ground (arith, fine)) (ground (arith, fine)) in
              let id_le : id ≤ 256 = ground (arith, fine) in
              let top : add_u64 base 16384 ≡ base + 16384 = omega (arith, at, id_le, l.0, l.1) in
              let hs : HasStack extra r stacked m.vmm vmm =
                rw (ap (λ z. z.1) (sym whole))
                  (rw (ap (λ z. z.2) (sym whole)) (map_stack_maps r task v good)) in
              rw (create_completes r m t id space entry argument stacked vmm fine whole) (
                stack_creates extra r m t stacked vmm base (ground (arith, fine)) refl refl top
                  (omega (arith, at)) (omega (arith, at, id_le, l.0, l.1)) (omega (arith, at, al))
                  hs)
        ]
      ]
