-- ===== src/ProcessRegistry.antt =====
-- kernel/process/process_registry.c: the live processes by identifier, and `struct process` of
-- kernel/process/process.h.
pub mod Slots
pub mod Space
use batos_os.Prelude.{
  ℕ, ◌-◌, ◌&&◌, ◌||◌, Bool, true, false, not, List, [], ◌∷◌, Ptr, null, Mem, Status, ret, err, ltb,
  ◌==◌, if◌then◌else◌, add_u64, get_or, set, replicate,
}

-- `enum process_state`
pub data ProcessState : Type 0 where
  created active ended : ProcessState

abbrev pub has_ended : ProcessState → Bool
has_ended ended = true
has_ended _ = false

pub record Process : Type 0 where
  pub id : ℕ
  pub state : ProcessState
  pub address_space : ℕ
  pub tasks : List Ptr
  pub task_count : ℕ

-- The static variables. PROCESS_MAX_PROCESSES is 256.
pub record Processes : Type 0 where
  pub slots : List Ptr
  pub count_value : ℕ
  pub initialized : Bool

unfoldable pub init : Status × Processes
init = (ret 0, record { slots = replicate 256 null; count_value = 0; initialized = true })

-- The scan of all slots for a pointer.
unfoldable pub holds : List Ptr → Ptr → Bool
holds [] p = false
holds (x ∷ xs) p = let rest = holds xs p in if x == p then true else rest

unfoldable pub register : Mem Process → Processes → Ptr → Status × Processes
register processes r p =
    if not r.initialized || (p == null)
    then (err 1, r)
    else if holds r.slots p
    then (err 2, r)
    else if ((processes p).id == 0) || ltb 256 (processes p).id
    then (err 3, r)
    else if has_ended (processes p).state
    then (err 4, r)
    else let index = (processes p).id - 1 in
      if not (get_or r.slots index null == null)
      then (err 5, r)
      else (ret 0, record r { slots = set r.slots index p; count_value = add_u64 r.count_value 1 })

unfoldable pub unregister : Mem Process → Processes → Ptr → Status × Processes
unregister processes r p =
    if not r.initialized || (p == null)
    then (err 1, r)
    else if ((processes p).id == 0) || ltb 256 (processes p).id
    then (err 2, r)
    else let index = (processes p).id - 1 in
      if not (get_or r.slots index null == p)
      then (err 3, r)
      else if r.count_value == 0
      then (err 4, r)
      else (ret 0, record r { slots = set r.slots index null; count_value = r.count_value - 1 })

unfoldable pub contains : Mem Process → Processes → Ptr → Bool
contains processes r p =
    if not r.initialized || (p == null)
    then false
    else if ((processes p).id == 0) || ltb 256 (processes p).id
    then false
    else get_or r.slots ((processes p).id - 1) null == p

unfoldable pub find : Processes → ℕ → Ptr
find r id =
    if not r.initialized || (id == 0) || ltb 256 id then null else get_or r.slots (id - 1) null

-- The loop of process_registry_find_by_address_space.
unfoldable pub find_space : Mem Process → List Ptr → ℕ → Ptr
find_space processes [] space = null
find_space processes (p ∷ ps) space =
    let rest = find_space processes ps space in
    if not (p == null) && ((processes p).address_space == space) then p else rest

unfoldable pub find_by_address_space : Mem Process → Processes → ℕ → Ptr
find_by_address_space processes r space =
    if not r.initialized || (space == 0) then null else find_space processes r.slots space

unfoldable pub count : Processes → ℕ
count r = r.count_value
