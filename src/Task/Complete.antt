-- ===== src/Task/Complete.antt =====
-- task_create of kernel/sched/task.c once the stack is mapped: the first context and the first frame.
use batos_os.Prelude.{
  ◌+◌, ◌-◌, ◌%◌, ◌^◌, ◌≤◌, ◌<◌, ◌≡◌, ◌≢◌, arith, refl, ap, ◌∙◌, Ptr, null, ret, store_self, bit_and,
  add_u64, sub_u64, true, store, store_ne, bit_and_unit,
}
use batos_os.Kernel.{
  Kernel, Task, ready, new, bootstrap_trampoline, Context, PreemptState, set_task, set_state,
  state_of,
}
use batos_os.Task.{transition, allowed}
use batos_os.Task.Create.{
  Machine, first_frame, complete, prepare_context, prepare_first_run, frame_size,
}

abbrev pub first_run : Task → PreemptState
first_run task = record { frame_address = task.kernel_stack_top - 176; valid = 1 }

abbrev pub first_context : Task → Context
first_context task = record task.context {
  rsp = task.kernel_stack_top - 24;
  rip = bootstrap_trampoline;
}

-- The task as task_create leaves it, on a stack that `task` has.
abbrev pub prepared : Task → Task
prepared task = record task {
  state = ready;
  context = first_context task;
  preempt_state = first_run task;
}

makes_ready :
    (k : Kernel) (t : Ptr)
    → t ≢ null
    → state_of k t ≡ new
    → transition k t ready ≡ (ret 0, set_state k t ready)
unfolding transition
makes_ready k t ne e =
    let a : allowed (state_of k t) ready ≡ true = ap (λ z. allowed z ready) e in
    ground (arith, ne, a)

module _ (k : Kernel) (t : Ptr) (ne : t ≢ null) (task : Task) (at : k.tasks t ≡ task)
    (base : task.kernel_stack_base ≢ 0)
    (room : task.kernel_stack_base + 176 ≤ task.kernel_stack_top)
    (fits : task.kernel_stack_top < 2 ^ 64) (even : task.kernel_stack_top % 16 ≡ 0) where
  frame_at : sub_u64 (sub_u64 task.kernel_stack_top 24) frame_size ≡ task.kernel_stack_top - 176
  frame_at = omega (arith, room, fits)

  frame_even : bit_and (task.kernel_stack_top - 176) 15 ≡ 0
  frame_even = omega (arith, bit_and_unit (task.kernel_stack_top - 176), room, even)

  abbrev framed : Kernel
  framed = record k {
    frames =
        store k.frames (task.kernel_stack_top - 176)
          (first_frame (k.frames (task.kernel_stack_top - 176)));
  }

  prepares :
      prepare_first_run k t
      ≡ (ret 0, set_task framed t (record task { preempt_state = first_run task }))
  unfolding prepare_first_run
  prepares = rw at (rw frame_at (ground (arith, ne, base, room, frame_even)))

-- task_create from the mapped stack on: what it has made of the task, with the words that the
-- bootstrap code pops.
pub record Completed (m : Machine) (t : Ptr) (n : Machine) : Type 0 where
  pub task : n.kernel.tasks t ≡ prepared (m.kernel.tasks t)
  pub vmm : n.vmm ≡ m.vmm
  pub return_slot : n.stack_words ((m.kernel.tasks t).kernel_stack_top - 24) ≡ 0
  pub task_slot : n.stack_words ((m.kernel.tasks t).kernel_stack_top - 16) ≡ t

module _ (m : Machine) (t : Ptr) (ne : t ≢ null) (base : (m.kernel.tasks t).kernel_stack_base ≢ 0)
    (room : (m.kernel.tasks t).kernel_stack_base + 176 ≤ (m.kernel.tasks t).kernel_stack_top)
    (fits : (m.kernel.tasks t).kernel_stack_top < 2 ^ 64)
    (even : (m.kernel.tasks t).kernel_stack_top % 16 ≡ 0) where
  abbrev own : Task
  own = m.kernel.tasks t

  abbrev placed : Task
  placed = record own { context = first_context own }

  sp_at : sub_u64 own.kernel_stack_top 24 ≡ own.kernel_stack_top - 24
  sp_at = omega (arith, room, fits)

  placed_at : (prepare_context m t).kernel.tasks t ≡ placed
  unfolding prepare_context
  placed_at = rw sp_at (store_self m.kernel.tasks t placed)

  abbrev run : Kernel
  run =
      set_task (framed (prepare_context m t).kernel t ne placed placed_at base room fits even) t
        (record placed { preempt_state = first_run placed })

  run_state : own.state ≡ new → state_of run t ≡ new
  run_state e =
      ap (λ (p : Task). p.state)
        (store_self (prepare_context m t).kernel.tasks t
          (record placed { preempt_state = first_run placed }))
      ∙ e

  completes :
      own.state ≡ new
      → complete m t ≡ (ret 0, record (prepare_context m t) { kernel = set_state run t ready })
  unfolding complete
  completes e =
      rw (prepares (prepare_context m t).kernel t ne placed placed_at base room fits even)
        (rw (makes_ready run t ne (run_state e)) refl)

  abbrev finished : Machine
  finished = record (prepare_context m t) { kernel = set_state run t ready }

  finished_task : finished.kernel.tasks t ≡ prepared own
  finished_task =
      store_self run.tasks t (record (run.tasks t) { state = ready })
      ∙ ap (λ (p : Task). record p { state = ready })
          (store_self (prepare_context m t).kernel.tasks t
            (record placed { preempt_state = first_run placed }))

  task_slot_at : add_u64 (own.kernel_stack_top - 24) 8 ≡ own.kernel_stack_top - 16
  task_slot_at = omega (arith, room, fits)

  finished-Completed : Completed m t finished
  unfolding prepare_context
  finished-Completed = record {
    task = finished_task;
    vmm = refl;
    return_slot = rw sp_at (
        rw task_slot_at (
          store_ne (store m.stack_words (own.kernel_stack_top - 24) 0) (own.kernel_stack_top - 16)
            (own.kernel_stack_top - 24) t (omega (arith, room))
          ∙ store_self m.stack_words (own.kernel_stack_top - 24) 0));
    task_slot = rw sp_at (
        rw task_slot_at (
          store_self (store m.stack_words (own.kernel_stack_top - 24) 0) (own.kernel_stack_top - 16)
            t));
  }

  pub complete-Completed : (m.kernel.tasks t).state ≡ new → Completed m t (complete m t).1
  complete-Completed e = rw (completes e) finished-Completed
