-- ===== src/Executors/ThreadPool.antt =====
-- executors/thread_pool/with_waitidle: the queues of the thread pool and how routines move between
-- them. Each method runs undisturbed here. A local queue is the bounded queue that
-- `LockFree/RingQueue` refines, the global queue the list that `Intrusive/Queue` refines.
pub mod Take
pub mod Worker
pub mod Count
pub mod Conserves
pub mod Takes
pub mod Idle
pub mod Robbers
pub mod Destroy
pub mod WithoutWaitIdle
mod Tests
use concurrency_library.Common.{
  ℕ, zero, suc, ◌+◌, ◌-◌, ◌/◌, ◌%◌, Bool, true, false, ◌||◌, not, List, [], ◌∷◌, ◌++◌, update, min,
  ◌==◌, ltb, if◌then◌else◌, inc64, dec64, length, take, drop,
}
use concurrency_library.LockFree.Bounded
use concurrency_library.Detail.WaitGroup

abbrev pub Routine : Type 0
Routine = ℕ

abbrev pub null : Routine
null = 0

-- `kLocalQueueSize`
abbrev pub local_queue_size : ℕ
local_queue_size = 1024

-- What one worker owns: its entries of `lifo_slots_`, `local_queues_` and
-- `lifo_slots_routines_count_`.
pub record Local : Type 0 where
  pub lifo_slot : Routine
  pub queue : List Routine
  pub lifo_count : ℕ

pub record ThreadPool : Type 0 where
  pub workers : ℕ
  pub locals : ℕ → Local
  pub global_queue : List Routine
  pub routines_in_queue : ℕ
  pub unfinished : WaitGroup.WaitGroup  -- `routines_wg_`
  pub robbers_count : ℕ

abbrev pub init : ℕ → ThreadPool
init workers = record {
  workers = workers;
  locals = λ _. record { lifo_slot = null; queue = []; lifo_count = 0 };
  global_queue = [];
  routines_in_queue = 0;
  unfinished = WaitGroup.empty;
  robbers_count = 0;
}

-- Replaces what worker `i` owns.
abbrev pub with_local : ThreadPool → ℕ → Local → ThreadPool
with_local p i l = record p { locals = update p.locals i l }

unfoldable pub push_global : ThreadPool → Routine → ThreadPool
push_global p r = record p { global_queue = p.global_queue ++ r ∷ [] }

-- `GrabFromLocalQueueToGlobalQueue`: the older half of the local queue
unfoldable pub grab_to_global : ThreadPool → ℕ → ThreadPool
grab_to_global p i =
    let l = p.locals i in
    let p' = with_local p i (record l { queue = drop (local_queue_size / 2) l.queue }) in
    record p' { global_queue = p.global_queue ++ take (local_queue_size / 2) l.queue }

-- The loop of `PushRoutineInTheLocalQueue`, with `tries` left for the push; if they run out the
-- routine is gone.
unfoldable pub push_local_loop : ℕ → ThreadPool → Routine → ℕ → ThreadPool
unfolding grab_to_global
push_local_loop zero p r i = p
push_local_loop (suc tries) p r i =
    let l = p.locals i in
    let (done, queue) = Bounded.push local_queue_size l.queue r in
    let again = push_local_loop tries (grab_to_global p i) r i in
    if done then with_local p i (record l { queue = queue }) else again

-- Two tries are enough: after a failed one half of the queue is free.
unfoldable pub push_local : ThreadPool → Routine → ℕ → ThreadPool
unfolding push_local_loop
push_local p r i = push_local_loop 2 p r i

unfoldable pub push_lifo : ThreadPool → Routine → ℕ → ThreadPool
push_lifo p r i =
    let l = p.locals i in
    let p' = with_local p i (record l { lifo_slot = r }) in
    if l.lifo_slot == null then p' else push_local p' l.lifo_slot i

-- `Hint`
pub data Hint : Type 0 where
  lifo local_queue global_queue : Hint

-- The three arms of `Execute(routine, hint)`.
push_by_hint : ThreadPool → Routine → Hint → ℕ → ThreadPool
unfolding push_lifo push_local push_global
push_by_hint p r lifo thread = push_lifo p r thread
push_by_hint p r local_queue thread = push_local p r thread
push_by_hint p r global_queue thread = push_global p r

-- `Execute(routine, hint)` in thread `thread`
unfoldable pub execute_hint : ThreadPool → Routine → Hint → ℕ → ThreadPool
unfolding push_by_hint
execute_hint p r hint thread =
    let p' = push_by_hint (record p { unfinished = WaitGroup.add p.unfinished 1 }) r hint thread in
    record p' { routines_in_queue = inc64 p'.routines_in_queue }
