-- ===== src/Executors/ThreadPool/WithoutWaitIdle.antt =====
-- executors/thread_pool/without_waitidle: the thread pool that does not count its routines. Its code
-- is a copy of with_waitidle without `routines_in_queue_` and `routines_wg_`; what one worker owns, the
-- hints and the strategies are those of that pool.
pub mod Forget
mod Tests
use concurrency_library.Common.{
  ℕ, zero, suc, ◌+◌, ◌-◌, ◌/◌, ◌%◌, Bool, true, false, ◌||◌, not, List, [], ◌∷◌, ◌++◌, update, min,
  ◌==◌, ltb, leb, if◌then◌else◌, length, take, drop, Option, none, some,
}
use concurrency_library.LockFree.Bounded
use concurrency_library.Executors.ThreadPool.{
  Routine, null, local_queue_size, Local, Hint, lifo, local_queue, global_queue,
}
use concurrency_library.Executors.ThreadPool.Take.{
  Source, lifo_slot, local_queue, global_queue, grab, default_strategy, global_queue_strategy,
  without_lifo_strategy, count_lifo,
}
use concurrency_library.Executors.ThreadPool.Worker.{
  global_queue_using_constant, max_lifo_routines_count,
}

pub record ThreadPool : Type 0 where
  pub workers : ℕ
  pub locals : ℕ → Local
  pub global_queue : List Routine
  pub robbers_count : ℕ

abbrev pub init : ℕ → ThreadPool
init workers = record {
  workers = workers;
  locals = λ _. record { lifo_slot = null; queue = []; lifo_count = 0 };
  global_queue = [];
  robbers_count = 0;
}

-- Replaces what worker `i` owns.
abbrev pub with_local : ThreadPool → ℕ → Local → ThreadPool
with_local p i l = record p { locals = update p.locals i l }

unfoldable pub push_global : ThreadPool → Routine → ThreadPool
push_global p r = record p { global_queue = p.global_queue ++ r ∷ [] }

-- `GrabFromLocalQueueToGlobalQueue`: the older half of the local queue
unfoldable pub grab_to_global : ThreadPool → ℕ → ThreadPool
grab_to_global p i =
    let l = p.locals i in
    let p' = with_local p i (record l { queue = drop (local_queue_size / 2) l.queue }) in
    record p' { global_queue = p.global_queue ++ take (local_queue_size / 2) l.queue }

-- The loop of `PushRoutineInTheLocalQueue`, with `tries` left for the push; if they run out the
-- routine is gone.
unfoldable pub push_local_loop : ℕ → ThreadPool → Routine → ℕ → ThreadPool
unfolding grab_to_global
push_local_loop zero p r i = p
push_local_loop (suc tries) p r i =
    let l = p.locals i in
    let (done, queue) = Bounded.push local_queue_size l.queue r in
    let again = push_local_loop tries (grab_to_global p i) r i in
    if done then with_local p i (record l { queue = queue }) else again

-- Two tries are enough: after a failed one half of the queue is free.
unfoldable pub push_local : ThreadPool → Routine → ℕ → ThreadPool
unfolding push_local_loop
push_local p r i = push_local_loop 2 p r i

unfoldable pub push_lifo : ThreadPool → Routine → ℕ → ThreadPool
push_lifo p r i =
    let l = p.locals i in
    let p' = with_local p i (record l { lifo_slot = r }) in
    if l.lifo_slot == null then p' else push_local p' l.lifo_slot i

-- The three arms of `Execute(routine, hint)`.
push_by_hint : ThreadPool → Routine → Hint → ℕ → ThreadPool
unfolding push_lifo push_local push_global
push_by_hint p r lifo thread = push_lifo p r thread
push_by_hint p r local_queue thread = push_local p r thread
push_by_hint p r global_queue thread = push_global p r

-- `Execute(routine, hint)` in thread `thread`
unfoldable pub execute_hint : ThreadPool → Routine → Hint → ℕ → ThreadPool
unfolding push_by_hint
execute_hint p r hint thread = push_by_hint p r hint thread

unfoldable pub take_lifo : ThreadPool → ℕ → Routine × ThreadPool
take_lifo p i = let l = p.locals i in (l.lifo_slot, with_local p i (record l { lifo_slot = null }))

unfoldable pub take_local : ThreadPool → ℕ → Routine × ThreadPool
take_local p i =
    let l = p.locals i in
    let (result, queue) = Bounded.pop l.queue in
    (result, with_local p i (record l { queue = queue }))

-- Pushing the routines of a queue to the local queue, oldest first.
unfoldable pub push_all_local : ThreadPool → List Routine → ℕ → ThreadPool
push_all_local p [] i = p
push_all_local p (r ∷ rs) i = push_all_local (push_local p r i) rs i

-- With `share` (`grab` in the code), a part of the global queue moves to the local one.
unfoldable pub take_global : ThreadPool → ℕ → Bool → Routine × ThreadPool
unfolding push_all_local
take_global p i share =
    let (result, rest) = Bounded.pop p.global_queue in
    let grabbed_count = min (local_queue_size / 2) (length rest / p.workers) in
    if result == null || not share || grabbed_count == 0
    then (result, record p { global_queue = rest })
    else (
      result,
      push_all_local (record p { global_queue = drop grabbed_count rest }) (take grabbed_count rest)
          i,
    )

-- What `TryGrabRoutineFromLocalQueue` takes from `from`: the oldest is the result, the others move
-- to `to`.
unfoldable pub rob : ThreadPool → ℕ → ℕ → Routine × ThreadPool
unfolding push_all_local
rob p to from =
    let l = p.locals from in
    let (result, rest) = Bounded.pop (take (local_queue_size / 4) l.queue) in
    (
      result,
      push_all_local (with_local p from (record l { queue = drop (local_queue_size / 4) l.queue }))
          rest to,
    )

-- `from` is the worker that the loop of random draws ends with: any but `to`.
unfoldable pub take_grab : ThreadPool → ℕ → ℕ → Routine × ThreadPool
unfolding rob
take_grab p to from =
    if ltb p.robbers_count p.workers
    then rob (record p { robbers_count = p.robbers_count + 1 }) to from
    else (null, p)

-- One step of a strategy, and the new value of `was_local_queue`.
unfoldable pub take_from : Source → ThreadPool → ℕ → ℕ → Bool → (Routine × ThreadPool) × Bool
unfolding take_lifo take_local take_global take_grab
take_from lifo_slot p i from was = (take_lifo p i, was)
take_from local_queue p i from was = (take_local p i, true)
take_from global_queue p i from was = (take_global p i was, was)
take_from grab p i from was = (take_grab p i from, was)

-- The loop of `TryTake`.
unfoldable pub try_take_loop : List Source → ThreadPool → ℕ → ℕ → Bool → Routine × ThreadPool
unfolding take_from
try_take_loop [] p i from was = (null, p)
try_take_loop (source ∷ strategy) p i from was =
    let ((result, p'), was') = take_from source p i from was in
    let later = try_take_loop strategy p' i from was' in
    let l = p'.locals i in
    if result == null
    then later
    else (result, with_local p' i (record l { lifo_count = count_lifo source l.lifo_count }))

unfoldable pub try_take : ThreadPool → ℕ → List Source → ℕ → Routine × ThreadPool
unfolding try_take_loop
try_take p i strategy from = try_take_loop strategy p i from false

-- `Execute(routine)` in worker `thread`, or outside the workers (`thread_id == -1`).
unfoldable pub execute : ThreadPool → Routine → Option ℕ → ThreadPool
unfolding execute_hint
execute p r none = execute_hint p r global_queue 0
execute p r (some thread) = execute_hint p r local_queue thread

-- `YieldExecute`, in any thread
unfoldable pub yield_execute : ThreadPool → Routine → ThreadPool
unfolding execute_hint
yield_execute p r = execute_hint p r global_queue 0

-- The strategy for the random number `draw`.
unfoldable pub choose_strategy : ThreadPool → ℕ → ℕ → List Source
choose_strategy p i draw =
    if draw % global_queue_using_constant == 0
    then global_queue_strategy
    else if leb max_lifo_routines_count (p.locals i).lifo_count
    then without_lifo_strategy
    else default_strategy

-- `run`, `discard` and `on_heap` are the virtual `Run`, `Discard` and `AllocatedOnHeap` of the
-- routines; `Run` may execute more routines.
module _ (run discard : Routine → ThreadPool → ThreadPool) (on_heap : Routine → Bool) where
  -- What a worker does with a routine that it has taken.
  unfoldable pub serve : ThreadPool → Routine → ThreadPool
  serve p r = let p' = run r p in if on_heap r then discard r p' else p'

  -- One pass of the loop by worker `i`. Where nothing is found, it tries again.
  unfoldable pub worker_round : ThreadPool → ℕ → ℕ → ℕ → ThreadPool
  unfolding try_take choose_strategy serve
  worker_round p i draw from =
      let (r, p') = try_take p i (choose_strategy p i draw) from in
      if r == null then p' else serve p' r
