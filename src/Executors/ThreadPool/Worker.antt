-- ===== src/Executors/ThreadPool/Worker.antt =====
-- executors/thread_pool/with_waitidle: `Execute`, `YieldExecute`, `WaitIdle`, `Stop` and the body of
-- the loop `WorkerRoutine`.
use concurrency_library.Common.{
  ℕ, ◌%◌, Bool, List, Option, none, some, ◌==◌, leb, if◌then◌else◌, add64, dec64,
}
use concurrency_library.Detail.WaitGroup
use concurrency_library.Executors.ThreadPool.{
  Routine, null, ThreadPool, local_queue, global_queue, execute_hint,
}
use concurrency_library.Executors.ThreadPool.Take.{
  Source, default_strategy, global_queue_strategy, without_lifo_strategy, try_take,
}

-- `Execute(routine)` in worker `thread`, or outside the workers (`thread_id == -1`).
unfoldable pub execute : ThreadPool → Routine → Option ℕ → ThreadPool
unfolding execute_hint
execute p r none = execute_hint p r global_queue 0
execute p r (some thread) = execute_hint p r local_queue thread

-- `YieldExecute`, in any thread
unfoldable pub yield_execute : ThreadPool → Routine → ThreadPool
unfolding execute_hint
yield_execute p r = execute_hint p r global_queue 0

-- Whether `WaitIdle` returns.
unfoldable pub is_idle : ThreadPool → Bool
is_idle p = WaitGroup.wait_returns p.unfinished

-- `kGlobalQueueUsingConstant` and `kMaxLIFORoutinesCount`
abbrev pub global_queue_using_constant : ℕ
global_queue_using_constant = 61

abbrev pub max_lifo_routines_count : ℕ
max_lifo_routines_count = 20

-- The strategy for the random number `draw`.
unfoldable pub choose_strategy : ThreadPool → ℕ → ℕ → List Source
choose_strategy p i draw =
    if draw % global_queue_using_constant == 0
    then global_queue_strategy
    else if leb max_lifo_routines_count (p.locals i).lifo_count
    then without_lifo_strategy
    else default_strategy

-- `run`, `discard` and `on_heap` are the virtual `Run`, `Discard` and `AllocatedOnHeap` of the
-- routines; `Run` may execute more routines.
module _ (run discard : Routine → ThreadPool → ThreadPool) (on_heap : Routine → Bool) where
  -- What a worker does with a routine that it has taken.
  unfoldable pub serve : ThreadPool → Routine → ThreadPool
  serve p r =
      let p' = run r (record p { routines_in_queue = dec64 p.routines_in_queue }) in
      let p'' = if on_heap r then discard r p' else p' in
      record p'' { unfinished = WaitGroup.done p''.unfinished }

  -- One pass of the loop by worker `i`. Where nothing is found, it waits and tries again.
  unfoldable pub worker_round : ThreadPool → ℕ → ℕ → ℕ → ThreadPool
  unfolding try_take choose_strategy serve
  worker_round p i draw from =
      let (r, p') = try_take p i (choose_strategy p i draw) from in
      if r == null then p' else serve p' r

-- The effect of `Stop` on the counters: all workers wake, and `AllDone` releases `WaitIdle`.
unfoldable pub stop : ThreadPool → ThreadPool
stop p = record p {
  routines_in_queue = add64 p.routines_in_queue 1000000000000;
  unfinished = WaitGroup.all_done p.unfinished;
}
