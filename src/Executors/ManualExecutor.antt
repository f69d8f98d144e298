-- ===== src/Executors/ManualExecutor.antt =====
-- executors/manual_executor.hpp: a single-threaded executor that runs routines when it is told to. Its
-- routines are the nodes of an intrusive queue. What a routine does when it runs is a parameter: the
-- routines that it submits to this executor, in order; it makes no other call of it, and its
-- `Discard` makes none.
pub mod Runs
pub mod Idle
mod Tests
use concurrency_library.Common.{
  ℕ, zero, suc, ◌==◌, Bool, true, false, none, List, [], ◌∷◌, ◌++◌, min, if◌then◌else◌, inc64,
  sub64,
}
use concurrency_library.Intrusive.Memory.{Ptr, null, Cmd, pure, ◌>>=◌, and_then}
use concurrency_library.Intrusive.Queue
use concurrency_library.Intrusive.Queue.{Queue, push, try_pop}

abbrev pub Routine : Type 0
Routine = Ptr

-- What happened to a routine.
pub data Event : Type 0 where
  ran : Routine → Event
  discarded : Routine → Event

pub record ManualExecutor : Type 0 where
  pub tasks_queue : Queue
  pub queue_size : ℕ
  pub log : List Event

abbrev pub empty : ManualExecutor
empty = record { tasks_queue = Queue.empty; queue_size = 0; log = [] }

pub execute : ManualExecutor → Routine → Cmd ManualExecutor
execute e r = do
  q ← push e.tasks_queue r
  pure (record e { tasks_queue = q; queue_size = inc64 e.queue_size })

pub yield_execute : ManualExecutor → Routine → Cmd ManualExecutor
yield_execute e r = execute e r

execute_all : ManualExecutor → List Routine → Cmd ManualExecutor
execute_all e [] = pure e
execute_all e (r ∷ rs) = do e' ← execute e r; execute_all e' rs

pub task_count : ManualExecutor → ℕ
task_count e = e.queue_size

pub has_tasks : ManualExecutor → Bool
has_tasks e = e.queue_size == 0

module _ (spawns : Routine → List Routine) (on_heap : Routine → Bool) where
  -- `AllocatedOnHeap`, `Run` and `Discard`; a call through null is a fault.
  run_routine : Routine → ManualExecutor → Cmd ManualExecutor
  run_routine r e = if r == null then (λ m. none) else do
    e' ← execute_all (record e { log = e.log ++ ran r ∷ [] }) (spawns r)
    pure (if on_heap r then record e' { log = e'.log ++ discarded r ∷ [] } else e')

  -- `count` rounds of the loop of `RunAtMost`.
  pub run_loop : ℕ → ManualExecutor → Cmd ManualExecutor
  run_loop zero e = pure e
  run_loop (suc count) e = do
    (r, q) ← try_pop e.tasks_queue
    e' ← run_routine r (record e { tasks_queue = q })
    run_loop count e'

  pub run_at_most : ℕ → ManualExecutor → Cmd (ℕ × ManualExecutor)
  run_at_most limit e = do
    let result = min e.queue_size limit
    e' ← run_loop result e
    pure (result, record e' { queue_size = sub64 e'.queue_size result })

  pub run_next : ManualExecutor → Cmd (Bool × ManualExecutor)
  run_next e = do (result, e') ← run_at_most 1 e; pure (result == 1, e')

  pub drain : ManualExecutor → Cmd (ℕ × ManualExecutor)
  drain e = run_at_most e.queue_size e

  -- With fuel: `none` is a fault or the end of the fuel.
  pub wait_idle : ℕ → ManualExecutor → Cmd (ℕ × ManualExecutor)
  wait_idle zero e = λ m. none
  wait_idle (suc fuel) e = do
    (more, e') ← run_next e
    elim more [ true ↦ (do (n, e'') ← wait_idle fuel e'; pure (suc n, e'')) | false ↦ pure (0, e') ]

-- The loop of the destructor, for at most `fuel` calls of `TryPop`.
pub discard_all : (Routine → Bool) → ℕ → ManualExecutor → Cmd ManualExecutor
discard_all on_heap zero e = λ m. none
discard_all on_heap (suc fuel) e = do
  (r, q) ← try_pop e.tasks_queue
  let e' : ManualExecutor = record e { tasks_queue = q }
  let later =
      discard_all on_heap fuel
        (if on_heap r then record e' { log = e'.log ++ discarded r ∷ [] } else e')
  if r == null then pure e' else later
