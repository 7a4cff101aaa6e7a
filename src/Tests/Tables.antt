-- ===== src/Tests/Tables.antt =====
-- The theorems on the run queue and on the process registry, applied to concrete tables.
use batos_os.Prelude.{Mem, ◌≢◌, ◌*◌, ◌≡◌, refl, ℕ, suc, List, [], ◌∷◌, arith, ret}
use batos_os.RunQueue
use batos_os.RunQueue.Fifo
use batos_os.RunQueue.Fifo.{Op, enqueues, dequeues, peeks, counts, removes, asks}
use batos_os.RunQueue.Refine.{run, run_refines}
use batos_os.ProcessRegistry
use batos_os.ProcessRegistry.{Process, Processes, active}
use batos_os.ProcessRegistry.Slots
use batos_os.ProcessRegistry.Slots.{registers}
use batos_os.Tests.Machine.{good}

abbrev calls : List Op
calls =
    enqueues good 1
    ∷ enqueues good 2
    ∷ enqueues good 1
    ∷ counts
    ∷ enqueues good 3
    ∷ removes 2
    ∷ asks 2
    ∷ dequeues
    ∷ peeks
    ∷ []

run_refines_example : run (RunQueue.init).1 calls ≡ Fifo.run [] calls
run_refines_example = run_refines calls

-- Every address holds an active process with its own address space.
abbrev processes : Mem Process
processes p = record {
  id = p;
  state = active;
  address_space = p * 4096;
  tasks = [];
  task_count = 0;
}

abbrev empty_table : Processes
empty_table = (ProcessRegistry.init).1

seven-Admits : ProcessRegistry.Slots.Admits processes empty_table 7
unfolding ProcessRegistry.init ProcessRegistry.find ProcessRegistry.holds
seven-Admits = record {
  ne_null = λ e. ground arith;
  absent = refl;
  id_pos = λ e. ground arith;
  id_le = omega arith;
  live = refl;
  free = refl;
}

empty_table-IsValid : ProcessRegistry.Slots.IsValid processes empty_table
empty_table-IsValid = ProcessRegistry.Slots.init-IsValid processes

registers_example :
    let (s, r') = ProcessRegistry.register processes empty_table 7 in
    (s ≡ ret 0)
    × (ProcessRegistry.find r' (processes 7).id ≡ 7)
    × ((id : ℕ)
        → id ≢ (processes 7).id
        → ProcessRegistry.find r' id ≡ ProcessRegistry.find empty_table id)
    × (ProcessRegistry.count r' ≡ suc (ProcessRegistry.count empty_table))
    × ProcessRegistry.Slots.IsValid processes r'
registers_example = registers empty_table-IsValid seven-Admits
