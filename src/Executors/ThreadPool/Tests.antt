-- ===== src/Executors/ThreadPool/Tests.antt =====
-- A pool of two workers: routine 7 in the slot of worker 0, 5 and 6 in its queue, 8 and 9 in the
-- global queue.
use concurrency_library.Common.{
  ℕ, ◌+◌, ◌≡◌, ◌==◌, if◌then◌else◌, refl, true, [], ◌∷◌, arith, update, weigh,
}
use concurrency_library.Executors.ThreadPool.{
  Routine, null, Local, ThreadPool, lifo, local_queue, execute_hint,
}
use concurrency_library.Executors.ThreadPool.Take.{
  without_lifo_strategy, default_strategy, take_grab, try_take,
}
use concurrency_library.Executors.ThreadPool.Conserves.{Fits}
use concurrency_library.Executors.ThreadPool.Takes.{Takes, try_take-Takes}
use concurrency_library.Executors.ThreadPool.Count.{count_pool}
use concurrency_library.Executors.ThreadPool.Idle.{
  one, Counts, execute_hint-Counts, worker_round-Counts,
}
use concurrency_library.Executors.ThreadPool.Worker.{worker_round}
use concurrency_library.Executors.ThreadPool.Robbers.{act_all, executes, takes, take_grab-starves}

abbrev nothing_local : Local
nothing_local = record { lifo_slot = null; queue = []; lifo_count = 0 }

abbrev pool : ThreadPool
pool = record {
  workers = 2;
  locals =
      update (λ _. nothing_local) 0 (record { lifo_slot = 7; queue = 5 ∷ 6 ∷ []; lifo_count = 0 });
  global_queue = 8 ∷ 9 ∷ [];
  routines_in_queue = 5;
  unfinished = 5;
  robbers_count = 2;
}

pool-Fits : Fits pool
pool-Fits i = ground arith

pool-Counts : Counts 0 pool
unfolding weigh
pool-Counts = record {
  fits = pool-Fits;
  queued = refl;
  unfinished_count = refl;
  bounded = omega arith;
}

abbrev is_five : Routine → ℕ
is_five r = if r == 5 then 1 else 0

try_take-Takes_example : Takes is_five pool (try_take pool 0 without_lifo_strategy 1)
try_take-Takes_example =
    try_take-Takes is_five pool 0 without_lifo_strategy 1 refl pool-Fits (omega arith) (omega arith)

try_take_first : (try_take pool 0 without_lifo_strategy 1).0 ≡ 5
unfolding try_take
try_take_first = refl

execute_hint-Counts_example :
    (count_pool one (execute_hint pool 4 lifo 0) ≡ count_pool one pool + one 4)
    × Counts 0 (execute_hint pool 4 lifo 0)
execute_hint-Counts_example =
    execute_hint-Counts one pool 4 lifo 0 0 refl pool-Counts (ground arith) (omega arith)
      (omega arith)

worker_round-Counts_example : Counts 0 (worker_round (λ r p. p) (λ r p. p) (λ r. true) pool 0 3 1)
worker_round-Counts_example =
    worker_round-Counts (λ r p. p) (λ r p. p) (λ r. true) 0 (λ r p c. c) (λ r p c. c) pool 0 3 1
      pool-Counts (omega arith) (omega arith)

take_grab-starves_example :
    let p = act_all (executes 4 local_queue 0 ∷ takes 1 default_strategy 0 ∷ []) pool in
    take_grab p 1 0 ≡ (null, p)
take_grab-starves_example =
    take_grab-starves pool (executes 4 local_queue 0 ∷ takes 1 default_strategy 0 ∷ []) 1 0
      pool-Fits (omega arith) (omega arith, (omega arith, omega arith, tt))
