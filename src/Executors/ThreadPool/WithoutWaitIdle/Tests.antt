-- ===== src/Executors/ThreadPool/WithoutWaitIdle/Tests.antt =====
-- A pool of two workers with routine 7 in a slot and 8 in the global queue.
use concurrency_library.Common.{◌≡◌, refl, true, [], ◌∷◌, update}
use concurrency_library.Executors.ThreadPool.{null, Local, ThreadPool}
use concurrency_library.Executors.ThreadPool.Worker.{worker_round}
use concurrency_library.Executors.ThreadPool.WithoutWaitIdle
use concurrency_library.Executors.ThreadPool.WithoutWaitIdle.Forget.{forget, forget-worker_round}

abbrev nothing_local : Local
nothing_local = record { lifo_slot = null; queue = []; lifo_count = 0 }

abbrev pool : ThreadPool
pool = record {
  workers = 2;
  locals = update (λ _. nothing_local) 0 (record nothing_local { lifo_slot = 7 });
  global_queue = 8 ∷ [];
  routines_in_queue = 2;
  unfinished = 2;
  robbers_count = 0;
}

forget-worker_round_example :
    forget (worker_round (λ r p. p) (λ r p. p) (λ r. true) pool 0 61 1)
    ≡ WithoutWaitIdle.worker_round (λ r p. p) (λ r p. p) (λ r. true) (forget pool) 0 61 1
forget-worker_round_example =
    forget-worker_round (λ r p. p) (λ r p. p) (λ r p. p) (λ r p. p) (λ r. true) (λ r p. refl)
      (λ r p. refl) pool 0 61 1
