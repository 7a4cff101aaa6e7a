-- ===== src/RunQueue/Fifo.antt =====
-- What the run queue promises: a list of at most 256 distinct pointers, oldest first.
use batos_os.Prelude.{
  ℕ, ◌||◌, Bool, not, List, [], ◌∷◌, ◌++◌, Ptr, null, Mem, Status, ret, err, leb, ◌==◌,
  if◌then◌else◌, length, mem, erase,
}
use batos_os.Kernel.{Task, is_ready}

-- The calls, with the tasks' states at the time of the call where the queue looks at them, and what
-- a caller sees of each.
pub data Op : Type 0 where
  enqueues : Mem Task → Ptr → Op
  dequeues peeks counts : Op
  removes asks : Ptr → Op

pub data Reply : Type 0 where
  status : Status → Reply
  pointer : Ptr → Reply
  number : ℕ → Reply
  answer : Bool → Reply

unfoldable pub enqueue : Mem Task → List Ptr → Ptr → Status × List Ptr
enqueue tasks xs t =
    if (t == null) || not (is_ready (tasks t).state) || leb 256 (length xs) || mem t xs
    then (err 1, xs)
    else (ret 0, xs ++ t ∷ [])

unfoldable pub peek : List Ptr → Ptr
peek [] = null
peek (x ∷ xs) = x

unfoldable pub dequeue : List Ptr → Ptr × List Ptr
dequeue [] = (null, [])
dequeue (x ∷ xs) = (x, xs)

unfoldable pub remove : List Ptr → Ptr → Status × List Ptr
remove xs t = if (t == null) || not (mem t xs) then (err 1, xs) else (ret 0, erase t xs)

unfoldable pub contains : List Ptr → Ptr → Bool
contains xs t = if t == null then Bool.false else mem t xs

unfoldable pub step : List Ptr → Op → Reply × List Ptr
unfolding enqueue peek dequeue remove contains
step xs (enqueues tasks t) = let (s, ys) = enqueue tasks xs t in (status s, ys)
step xs dequeues = let (p, ys) = dequeue xs in (pointer p, ys)
step xs peeks = (pointer (peek xs), xs)
step xs counts = (number (length xs), xs)
step xs (removes t) = let (s, ys) = remove xs t in (status s, ys)
step xs (asks t) = (answer (contains xs t), xs)

unfoldable pub run : List Ptr → List Op → List Reply
unfolding step
run xs [] = []
run xs (op ∷ ops) = let (r, ys) = step xs op in r ∷ run ys ops
