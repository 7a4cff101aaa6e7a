-- ===== src/Tests/Ending.antt =====
-- The theorems on the end of a task, applied to the machine of three tasks.
use batos_os.Prelude.{◌≡◌, ◌≢◌, refl, true, false, [], ◌∷◌, null, arith, store, ret, failed}
use batos_os.Ring
use batos_os.Ring.{Ring}
use batos_os.Ring.Valid.{contents}
use batos_os.Ring.Window.{window}
use batos_os.Kernel.{Kernel, is_managed}
use batos_os.Ownership.{Owned}
use batos_os.RunQueue
use batos_os.WaitQueue
use batos_os.TaskRegistry
use batos_os.Task.{set_exit_handler, transition}
use batos_os.Dispatch.{resolve_target, frame_from_state, switched}
use batos_os.Scheduler
use batos_os.Lifecycle.{publish, contains_pending, finish}
use batos_os.Lifecycle.Finish.{ended, Finished, finish_published}
use batos_os.System.{goes, stays, adds, starts}
use batos_os.System.Invariant.{boot_keeps}
use batos_os.Tests.Machine.{good, booted, live, good-AtBoot, Reach-live}

-- Task 1 runs, it is managed and registered, and tasks 2 and 3 are queued.
live_facts :
    ((live good).current ≢ null)
    × (contents (live good).runqueue ≡ 2 ∷ 3 ∷ [])
    × (failed (resolve_target (live good) 2).0 ≡ false)
    × ((live good).exit_handler ≢ null)
    × (is_managed ((live good).tasks (live good).current).lifecycle_mode ≡ true)
unfolding contents window Ring.push Ring.pop Ring.empty Ring.find Ring.find_from Ring.front
    RunQueue.init RunQueue.contains RunQueue.enqueue RunQueue.dequeue RunQueue.peek Scheduler.init
    Scheduler.add Scheduler.enqueue Scheduler.start Scheduler.peek_next Scheduler.take_next
    WaitQueue.init set_exit_handler transition resolve_target frame_from_state store
live_facts = (λ e. ground arith, refl, refl, λ e. ground arith, refl)

owned : Owned (live good)
owned = boot_keeps 77 good-AtBoot (λ e. ground arith) (Reach-live good)

published : (publish (ended (live good) (live good).pending) (live good).current).0 ≡ ret 0
unfolding contents window Ring.push Ring.pop Ring.empty Ring.find Ring.find_from Ring.front
    RunQueue.init RunQueue.contains RunQueue.enqueue RunQueue.dequeue RunQueue.peek Scheduler.init
    Scheduler.add Scheduler.enqueue Scheduler.start Scheduler.peek_next Scheduler.take_next
    WaitQueue.init set_exit_handler transition resolve_target frame_from_state store publish
    contains_pending TaskRegistry.contains TaskRegistry.register TaskRegistry.init
published = refl

finish_published_example :
    let (out, k') = finish (live good) (live good).current in
    (out ≡ switched)
    × Finished (live good) 2 (3 ∷ []) (Ring.push (live good).pending (live good).current) k'
finish_published_example =
    finish_published owned live_facts.0 live_facts.1 live_facts.3 live_facts.2 live_facts.4
      published

-- Task 2 runs, which is not managed.
abbrev second : Kernel
second = (Scheduler.start (Scheduler.add (Scheduler.add (booted good) 2).1 3).1).1

second_facts :
    (second.current ≢ null)
    × (contents second.runqueue ≡ 3 ∷ [])
    × (failed (resolve_target second 3).0 ≡ false)
    × (second.exit_handler ≢ null)
    × (is_managed (second.tasks second.current).lifecycle_mode ≡ false)
unfolding contents window Ring.push Ring.pop Ring.empty Ring.find Ring.find_from Ring.front
    RunQueue.init RunQueue.contains RunQueue.enqueue RunQueue.dequeue RunQueue.peek Scheduler.init
    Scheduler.add Scheduler.enqueue Scheduler.start Scheduler.peek_next Scheduler.take_next
    WaitQueue.init set_exit_handler transition resolve_target frame_from_state store
second_facts = (λ e. ground arith, refl, refl, λ e. ground arith, refl)

second-Owned : Owned second
second-Owned =
    boot_keeps 77 good-AtBoot (λ e. ground arith)
      (goes (goes (goes stays (adds 2)) (adds 3)) starts)
