-- ===== src/Executors/ThreadPool/Take.antt =====
-- executors/thread_pool/with_waitidle: where a worker takes its next routine from.
use concurrency_library.Common.{
  inc64, ℕ, ◌+◌, ◌/◌, Bool, true, false, ◌||◌, not, List, [], ◌∷◌, min, ◌==◌, ltb, if◌then◌else◌,
  length, take, drop,
}
use concurrency_library.LockFree.Bounded
use concurrency_library.Executors.ThreadPool.{
  Routine, null, local_queue_size, ThreadPool, with_local, push_local,
}

unfoldable pub take_lifo : ThreadPool → ℕ → Routine × ThreadPool
take_lifo p i = let l = p.locals i in (l.lifo_slot, with_local p i (record l { lifo_slot = null }))

unfoldable pub take_local : ThreadPool → ℕ → Routine × ThreadPool
take_local p i =
    let l = p.locals i in
    let (result, queue) = Bounded.pop l.queue in
    (result, with_local p i (record l { queue = queue }))

-- Pushing the routines of a queue to the local queue, oldest first.
unfoldable pub push_all_local : ThreadPool → List Routine → ℕ → ThreadPool
push_all_local p [] i = p
push_all_local p (r ∷ rs) i = push_all_local (push_local p r i) rs i

-- With `grab`, a share of the global queue moves to the local one.
unfoldable pub take_global : ThreadPool → ℕ → Bool → Routine × ThreadPool
unfolding push_all_local
take_global p i grab =
    let (result, rest) = Bounded.pop p.global_queue in
    let grabbed_count = min (local_queue_size / 2) (length rest / p.workers) in
    if result == null || not grab || grabbed_count == 0
    then (result, record p { global_queue = rest })
    else (
      result,
      push_all_local (record p { global_queue = drop grabbed_count rest }) (take grabbed_count rest)
          i,
    )

-- What `TryGrabRoutineFromLocalQueue` takes from `from`: the oldest is the result, the others move
-- to `to`.
unfoldable pub rob : ThreadPool → ℕ → ℕ → Routine × ThreadPool
unfolding push_all_local
rob p to from =
    let l = p.locals from in
    let (result, rest) = Bounded.pop (take (local_queue_size / 4) l.queue) in
    (
      result,
      push_all_local (with_local p from (record l { queue = drop (local_queue_size / 4) l.queue }))
          rest to,
    )

-- `from` is the worker that the loop of random draws ends with: any but `to`.
unfoldable pub take_grab : ThreadPool → ℕ → ℕ → Routine × ThreadPool
unfolding rob
take_grab p to from =
    if ltb p.robbers_count p.workers
    then rob (record p { robbers_count = p.robbers_count + 1 }) to from
    else (null, p)

-- `TakeStrategy`
pub data Source : Type 0 where
  lifo_slot local_queue global_queue grab : Source

abbrev pub default_strategy : List Source
default_strategy = lifo_slot ∷ local_queue ∷ global_queue ∷ grab ∷ []

abbrev pub global_queue_strategy : List Source
global_queue_strategy = global_queue ∷ lifo_slot ∷ local_queue ∷ grab ∷ []

abbrev pub without_lifo_strategy : List Source
without_lifo_strategy = local_queue ∷ global_queue ∷ grab ∷ lifo_slot ∷ []

-- One step of a strategy, and the new value of `was_local_queue`.
unfoldable pub take_from : Source → ThreadPool → ℕ → ℕ → Bool → (Routine × ThreadPool) × Bool
unfolding take_lifo take_local take_global take_grab
take_from lifo_slot p i from was = (take_lifo p i, was)
take_from local_queue p i from was = (take_local p i, true)
take_from global_queue p i from was = (take_global p i was, was)
take_from grab p i from was = (take_grab p i from, was)

-- The count of routines in a row from the LIFO slot.
abbrev pub count_lifo : Source → ℕ → ℕ
count_lifo lifo_slot n = inc64 n
count_lifo _ n = 0

-- The loop of `TryTake`.
unfoldable pub try_take_loop : List Source → ThreadPool → ℕ → ℕ → Bool → Routine × ThreadPool
unfolding take_from
try_take_loop [] p i from was = (null, p)
try_take_loop (source ∷ strategy) p i from was =
    let ((result, p'), was') = take_from source p i from was in
    let later = try_take_loop strategy p' i from was' in
    let l = p'.locals i in
    if result == null
    then later
    else (result, with_local p' i (record l { lifo_count = count_lifo source l.lifo_count }))

unfoldable pub try_take : ThreadPool → ℕ → List Source → ℕ → Routine × ThreadPool
unfolding try_take_loop
try_take p i strategy from = try_take_loop strategy p i from false
