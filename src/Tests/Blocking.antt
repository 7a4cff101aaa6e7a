-- ===== src/Tests/Blocking.antt =====
-- The theorems on blocking, waking and the end of a task, applied to the machine of three tasks.
use batos_os.Prelude.{
  ◌≡◌, ◌≢◌, refl, sym, ap, ◌∙◌, true, false, [], ◌∷◌, ◌++◌, Ptr, null, arith, store, ret, err,
  failed, mem, length, ◌⊎◌, ℕ,
}
use batos_os.Ring
use batos_os.Ring.{Ring}
use batos_os.Ring.Valid.{contents, length-contents}
use batos_os.Ring.Window.{window}
use batos_os.Kernel.{Kernel, state_of, running, blocked}
use batos_os.Ownership.{Owned, IsIn}
use batos_os.RunQueue
use batos_os.WaitQueue
use batos_os.Task.{set_exit_handler, transition}
use batos_os.Dispatch.{resolve_target, frame_from_state, switched, returned}
use batos_os.Scheduler
use batos_os.Scheduler.Yield.{Atomic}
use batos_os.Blocking.{block, wake}
use batos_os.Blocking.Admit.{Admitted}
use batos_os.Blocking.Block.{Blocked, block_blocks, block_stranded}
use batos_os.Blocking.Atomic.{block-Atomic}
use batos_os.Blocking.Wake.{Woken, wake_wakes, wake_atomic}
use batos_os.System.{goes, blocks}
use batos_os.System.Invariant.{boot_keeps, boot_exclusive}
use batos_os.Tests.Machine.{good, bad, live, good-AtBoot, bad-AtBoot, Reach-live}

-- Task 1 runs, and tasks 2 and 3 are queued; the wait queue at 9 is empty.
live_facts :
    ((live good).current ≡ 1)
    × (contents (live good).runqueue ≡ 2 ∷ 3 ∷ [])
    × (failed (resolve_target (live good) 2).0 ≡ false)
    × ((live good).interrupts ≡ true)
    × (((live good).wait_queues 9).initialized ≡ true)
    × (((live good).wait_queues 9).count ≡ 0)
    × ((live good).exit_handler ≡ 77)
unfolding contents window Ring.push Ring.pop Ring.empty Ring.find Ring.find_from Ring.front
    RunQueue.init RunQueue.contains RunQueue.enqueue RunQueue.dequeue RunQueue.peek Scheduler.init
    Scheduler.add Scheduler.enqueue Scheduler.start Scheduler.peek_next Scheduler.take_next
    WaitQueue.init set_exit_handler transition resolve_target frame_from_state store
live_facts = (refl, refl, refl, refl, refl, refl, refl)

owned : Owned (live good)
owned = boot_keeps 77 good-AtBoot (λ e. ground arith) (Reach-live good)

busy : (live good).current ≢ null
busy = rw live_facts.0 (λ e. ground arith)

admitted : Admitted (live good) 9 2 (3 ∷ [])
admitted = record {
  owned = owned;
  current_ne_null = busy;
  queue_ne_null = λ e. ground arith;
  enabled = live_facts.3;
  ready_queue = live_facts.4;
  room = omega (arith, live_facts.5);
  list = live_facts.1;
}

block_blocks_example :
    let (o, k') = block (live good) (live good).current 9 in
    (o ≡ switched) × Blocked (live good) 9 2 (3 ∷ []) k'
block_blocks_example = block_blocks admitted live_facts.2

whole_current : (block (live good) (live good).current 9).0 ≢ returned (err 13)
whole_current e = ground (arith, block_blocks_example.0, e)

whole : (block (live good) 1 9).0 ≢ returned (err 13)
whole e =
    let s = sym (ap (λ (t : ℕ). (block (live good) t 9).0) live_facts.0) ∙ block_blocks_example.0 in
    ground (arith, s, e)

block-Atomic_example : Atomic (live good) (block (live good) 1 9)
block-Atomic_example = block-Atomic 1 9 owned whole

-- The same machine, but task 2 has no continuation.
bad_facts :
    ((live bad).current ≡ 1)
    × (contents (live bad).runqueue ≡ 2 ∷ 3 ∷ [])
    × (failed (resolve_target (live bad) 2).0 ≡ true)
    × ((live bad).interrupts ≡ true)
    × (((live bad).wait_queues 9).initialized ≡ true)
    × (((live bad).wait_queues 9).count ≡ 0)
unfolding contents window Ring.push Ring.pop Ring.empty Ring.find Ring.find_from Ring.front
    RunQueue.init RunQueue.contains RunQueue.enqueue RunQueue.dequeue RunQueue.peek Scheduler.init
    Scheduler.add Scheduler.enqueue Scheduler.start Scheduler.peek_next Scheduler.take_next
    WaitQueue.init set_exit_handler transition resolve_target frame_from_state store
bad_facts = (refl, refl, refl, refl, refl, refl)

bad-Admitted : Admitted (live bad) 9 2 (3 ∷ [])
bad-Admitted = record {
  owned = boot_keeps 77 bad-AtBoot (λ e. ground arith) (Reach-live bad);
  current_ne_null = rw bad_facts.0 (λ e. ground arith);
  queue_ne_null = λ e. ground arith;
  enabled = bad_facts.3;
  ready_queue = bad_facts.4;
  room = omega (arith, bad_facts.5);
  list = bad_facts.1;
}

block_stranded_example :
    let (o, k') = block (live bad) (live bad).current 9 in
    (o ≡ returned (err 13))
    × (k'.current ≡ (live bad).current)
    × (state_of k' (live bad).current ≡ blocked)
    × (contents (k'.wait_queues 9) ≡ contents ((live bad).wait_queues 9) ++ (live bad).current ∷ [])
    × ¬ Owned k'
block_stranded_example = block_stranded bad-Admitted bad_facts.2

-- Task 1 waits in the queue at 9, and task 2 runs.
abbrev asleep : Kernel
asleep = (block (live good) (live good).current 9).1

asleep-Owned : Owned asleep
asleep-Owned = block_blocks_example.1.owned

asleep_waits : (IsIn blocked asleep.tasks 1) × ((asleep.tasks 1).wait_queue ≡ 9)
asleep_waits =
    let b = block_blocks_example.1 in
    (
      sym (ap (λ (t : ℕ). state_of asleep t) live_facts.0) ∙ b.sleeps,
      sym (ap (λ (t : ℕ). (asleep.tasks t).wait_queue) live_facts.0) ∙ b.owner,
    )

wake_wakes_example : let (s, k') = wake asleep 1 in (s ≡ ret 0) × Woken asleep 1 k'
wake_wakes_example =
    wake_wakes asleep-Owned asleep_waits.0 (λ e. ground arith) (λ e. ground (arith, asleep_waits.1))
      (omega
        (arith, sym (length-contents asleep.runqueue) ∙ ap length block_blocks_example.1.queue))

wake_atomic_example :
    (((wake asleep 1).0 ≡ ret 0) × Woken asleep 1 (wake asleep 1).1)
    ⊎ ((e : ℕ) × (wake asleep 1 ≡ (err e, asleep)))
wake_atomic_example = wake_atomic 1 asleep-Owned

boot_exclusive_example :
    ((u : Ptr) → IsIn running asleep.tasks 3 → IsIn running asleep.tasks u → 3 ≡ u)
    × (mem 3 (contents asleep.runqueue) ≡ true
        → (¬ IsIn running asleep.tasks 3)
          × ((q : Ptr)
              → (asleep.wait_queues q).initialized ≡ true
              → mem 3 (contents (asleep.wait_queues q)) ≡ false))
    × ((p q : Ptr)
        → (asleep.wait_queues p).initialized ≡ true
        → (asleep.wait_queues q).initialized ≡ true
        → mem 3 (contents (asleep.wait_queues p)) ≡ true
        → mem 3 (contents (asleep.wait_queues q)) ≡ true
        → p ≡ q)
boot_exclusive_example =
    boot_exclusive 77 3 good-AtBoot (λ e. ground arith)
      (goes (Reach-live good) (blocks (live good).current 9 whole_current))
