-- ===== src/Dispatch/Keeps.antt =====
-- What a switch leaves alone: of the tasks it writes the saved context of the one that gives way.
use batos_os.Prelude.{◌≡◌, refl, Ptr, arith, store}
use batos_os.Kernel.{Kernel}
use batos_os.Ownership.{Owned, store-Owned, Owned-of_same}
use batos_os.Dispatch.{
  Target, nowhere, to_context, to_frame, switch_and_enable, switch_to_interrupt,
}
use batos_os.Dispatch.Arrive.{arrive}

pub arrive-Owned : {k : Kernel} (c : Ptr) (target : Target) → Owned k → Owned (arrive k c target)
unfolding switch_and_enable switch_to_interrupt
arrive-Owned c nowhere o = o
arrive-Owned c (to_context t) o = Owned-of_same (store-Owned c _ o refl refl) refl refl refl refl
arrive-Owned c (to_frame f) o = Owned-of_same (store-Owned c _ o refl refl) refl refl refl refl

-- The fields that a switch keeps.
pub record SameClaims (k k' : Kernel) : Type 0 where
  pub pending : k'.pending ≡ k.pending
  pub runqueue : k'.runqueue ≡ k.runqueue
  pub current : k'.current ≡ k.current
  pub dispatch_count : k'.dispatch_count ≡ k.dispatch_count
  pub wait_queues : k'.wait_queues ≡ k.wait_queues
  pub states : (t : Ptr) → (k'.tasks t).state ≡ (k.tasks t).state
  pub owners : (t : Ptr) → (k'.tasks t).wait_queue ≡ (k.tasks t).wait_queue
  pub authorities : (t : Ptr) → (k'.tasks t).resume_authority ≡ (k.tasks t).resume_authority

pub arrive-SameClaims : (k : Kernel) (c : Ptr) (target : Target) → SameClaims k (arrive k c target)
unfolding switch_and_enable switch_to_interrupt store
arrive-SameClaims k c nowhere = ground arith
arrive-SameClaims k c (to_context t) = ground arith
arrive-SameClaims k c (to_frame f) = ground arith
