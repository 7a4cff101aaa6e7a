-- ===== src/Tests/Scheduling.antt =====
-- The theorems on scheduling, applied to the machine of three tasks.
use batos_os.Prelude.{
  ◌≡◌, ◌≢◌, ◌<◌, refl, sym, ap, ◌∙◌, inl, inr, true, false, [], ◌∷◌, Ptr, null, arith, store, ret,
  failed, Bool-cases, ◌==◌, mem, ◌⊎◌,
}
use batos_os.Ring
use batos_os.Ring.{Ring}
use batos_os.Ring.Valid.{contents}
use batos_os.Ring.Window.{window}
use batos_os.Kernel.{Kernel, ready}
use batos_os.Ownership.{Owned, IsIn}
use batos_os.RunQueue
use batos_os.WaitQueue
use batos_os.Task.{set_exit_handler, transition}
use batos_os.Dispatch.{resolve_target, frame_from_state, switched}
use batos_os.Scheduler
use batos_os.Scheduler.Yield.{Yielded, Atomic, yield_rotates, yield-Atomic}
use batos_os.Scheduler.Turns
use batos_os.Scheduler.Turns.{QueueResolves, yields_reach}
use batos_os.Scheduler.Rotate.{Exchanged}
use batos_os.Preempt.{preempt_current, handle_timer}
use batos_os.Preempt.Timer.{Continues, preempt_exchanges, timer-Continues}
use batos_os.Scheduler.Return.{Resumes, yields_return}
use batos_os.System.{stays, goes, adds, starts}
use batos_os.System.Invariant.{boot_keeps}
use batos_os.Tests.Machine.{good, waiting, live, booted, good-AtBoot, Reach-waiting, Reach-live}

owned : Owned (live good)
owned = boot_keeps 77 good-AtBoot (λ e. ground arith) (Reach-live good)

-- Task 1 runs, tasks 2 and 3 are queued.
live_facts :
    ((live good).current ≡ 1)
    × (contents (live good).runqueue ≡ 2 ∷ 3 ∷ [])
    × ((live good).runqueue.count ≡ 2)
    × (failed (resolve_target (live good) 2).0 ≡ false)
    × (failed (resolve_target (live good) 3).0 ≡ false)
    × ((live good).interrupts ≡ true)
    × (((live good).wait_queues 9).initialized ≡ true)
    × (((live good).wait_queues 9).count ≡ 0)
    × ((live good).exit_handler ≡ 77)
unfolding contents window Ring.push Ring.pop Ring.empty Ring.find Ring.find_from Ring.front
    RunQueue.init RunQueue.contains RunQueue.enqueue RunQueue.dequeue RunQueue.peek Scheduler.init
    Scheduler.add Scheduler.enqueue Scheduler.start Scheduler.peek_next Scheduler.take_next
    WaitQueue.init set_exit_handler transition resolve_target frame_from_state store
live_facts = (refl, refl, refl, refl, refl, refl, refl, refl, refl)

waiting-Owned : Owned (waiting good)
waiting-Owned = boot_keeps 77 good-AtBoot (λ e. ground arith) (Reach-waiting good)

waiting_facts :
    ((waiting good).current ≡ null)
    × (contents (waiting good).runqueue ≡ 1 ∷ 2 ∷ 3 ∷ [])
    × IsIn ready (waiting good).tasks 4
    × (mem 4 (contents (waiting good).runqueue) ≡ false)
    × ((waiting good).runqueue.count ≡ 3)
unfolding contents window Ring.push Ring.pop Ring.empty Ring.find Ring.find_from Ring.front
    RunQueue.init RunQueue.contains RunQueue.enqueue RunQueue.dequeue RunQueue.peek Scheduler.init
    Scheduler.add Scheduler.enqueue Scheduler.start Scheduler.peek_next Scheduler.take_next
    WaitQueue.init set_exit_handler transition resolve_target frame_from_state mem
waiting_facts = (refl, refl, refl, refl, refl)

busy : (live good).current ≢ null
busy = rw live_facts.0 (λ e. ground arith)

room : (live good).runqueue.count < 256
room = omega (arith, live_facts.2)

boot_keeps_example : Owned (live good)
boot_keeps_example = boot_keeps 77 good-AtBoot (λ e. ground arith) (Reach-live good)

yield_rotates_example :
    let (o, k') = Scheduler.yield (live good) in (o ≡ switched) × Yielded (live good) 2 (3 ∷ []) k'
yield_rotates_example = yield_rotates owned busy live_facts.1 room live_facts.3

yield-Atomic_example : Atomic (live good) (Scheduler.yield (live good))
yield-Atomic_example = yield-Atomic owned

two_or_three : (t : Ptr) → mem t (2 ∷ 3 ∷ []) ≡ true → (t ≡ 2) ⊎ (t ≡ 3)
unfolding mem
two_or_three t m = elim (Bool-cases (2 == t)) [
  | inl two ↦ inl (ground arith)
  | inr other ↦ inr (ground arith)
]

queue_resolves : QueueResolves (live good)
queue_resolves t m = elim (two_or_three t (sym (ap (mem t) live_facts.1) ∙ m)) [
  | inl e ↦ rw e live_facts.3
  | inr e ↦ rw e live_facts.4
]

yields_reach_example : (Turns.yields 2 (live good)).current ≡ 3
yields_reach_example = yields_reach (2 ∷ []) [] owned busy room queue_resolves live_facts.1

preempt_exchanges_example :
    let (s, p, k') = preempt_current (live good) 2 in
    (s ≡ ret 0) × (p ≡ 2) × Exchanged (live good) 2 (3 ∷ []) k'
preempt_exchanges_example = preempt_exchanges owned busy live_facts.1 room

timer-Continues_example : Continues (live good) 5000 (handle_timer true (live good) 5000)
timer-Continues_example = timer-Continues true 5000 (λ e. ground arith) owned

-- Task 1 runs, and task 2 is queued.
abbrev pair : Kernel
pair = (Scheduler.start (Scheduler.add (Scheduler.add (booted good) 1).1 2).1).1

pair_facts :
    (pair.current ≢ null)
    × (contents pair.runqueue ≡ 2 ∷ [])
    × (failed (resolve_target pair 2).0 ≡ false)
unfolding contents window Ring.push Ring.pop Ring.empty Ring.find Ring.find_from Ring.front
    RunQueue.init RunQueue.contains RunQueue.enqueue RunQueue.dequeue RunQueue.peek Scheduler.init
    Scheduler.add Scheduler.enqueue Scheduler.start Scheduler.peek_next Scheduler.take_next
    WaitQueue.init set_exit_handler transition resolve_target frame_from_state store
pair_facts = (λ e. ground arith, refl, refl)

pair-Owned : Owned pair
pair-Owned =
    boot_keeps 77 good-AtBoot (λ e. ground arith)
      (goes (goes (goes stays (adds 1)) (adds 2)) starts)

yields_return_example :
    let k2 = Turns.yields 2 pair in
    (k2.current ≡ pair.current) × Resumes pair.cpu k2.cpu × (k2.interrupts ≡ true)
yields_return_example = yields_return pair-Owned pair_facts.0 pair_facts.1 pair_facts.2
