-- ===== src/Executors/ManualExecutor/Tests.antt =====
-- A run of the manual executor: routine 3 submits 2 and 5, routine 2 submits 1, and 2 is on the heap.
use concurrency_library.Common.{
  ℕ, ◌+◌, ◌<◌, ◌≤◌, ◌≡◌, refl, Bool, true, false, Option, none, some, List, [], ◌∷◌, ◌==◌, has,
  update, arith, if◌then◌else◌,
}
use concurrency_library.Intrusive.Memory.{Memory, null, Returns, ◌>>=◌, store_next, load_next}
use concurrency_library.Intrusive.Queue.{push, try_pop}
use concurrency_library.Executors.ManualExecutor.{
  Routine, Event, ran, discarded, ManualExecutor, empty, execute, yield_execute, task_count,
  has_tasks, run_next, drain, wait_idle, discard_all, run_at_most, run_loop, run_routine,
  execute_all,
}
use concurrency_library.Executors.ManualExecutor.Runs.{Waits, total, bit, IsOnce}
use concurrency_library.Executors.ManualExecutor.Idle.{AllRan, wait_idle-Returns}

abbrev spawns : Routine → List Routine
spawns r = if r == 3 then 2 ∷ 5 ∷ [] else if r == 2 then 1 ∷ [] else []

abbrev on_heap : Routine → Bool
on_heap r = r == 2

abbrev weight : Routine → ℕ
weight r = if r == 3 then 5 else if r == 2 then 2 else 1

abbrev uses : Routine → Routine → ℕ
uses a r =
    bit (a == r)
    + (if r == 3
        then bit (a == 2) + bit (a == 1) + bit (a == 5)
        else if r == 2
        then bit (a == 1)
        else 0)

descends : (r : Routine) → total weight (spawns r) < weight r
descends r = ground arith

once : (a r : Routine) → bit (a == r) + total (uses a) (spawns r) ≤ uses a r
once a r = ground arith

safe : (r : Routine) → has null (spawns r) ≡ false
safe r = ground arith

abbrev unlinked : Memory
unlinked = record { next = λ _. 9; prev = λ _. 9 }

abbrev memory : Memory
memory = record unlinked { next = update (update unlinked.next 3 4) 4 0 }

abbrev waiting : ManualExecutor
waiting = record { tasks_queue = record { head = 3; tail = 4; size = 2 }; queue_size = 2; log = [] }

waiting-Waits : Waits (3 ∷ 4 ∷ []) 0 [] waiting memory
waiting-Waits = record {
  holds = record {
    chain = (refl, omega arith, (refl, omega arith, refl));
    distinct = (refl, (refl, tt));
    back = refl;
    count = refl;
  };
  size = refl;
  logged = refl;
}

waiting-IsOnce : IsOnce uses (3 ∷ 4 ∷ [])
waiting-IsOnce a = ground arith

wait_idle-Returns_example :
    Returns
      (λ p g. Waits [] 0 p.1.log p.1 g × AllRan spawns on_heap (3 ∷ 4 ∷ []) [] p.1.log p.0)
      (wait_idle spawns on_heap 7 waiting memory)
wait_idle-Returns_example =
    wait_idle-Returns spawns on_heap weight uses descends once safe 7 memory waiting (3 ∷ 4 ∷ []) []
      waiting-Waits waiting-IsOnce (omega arith) (omega arith)

abbrev log_of : {A : Type 0} → (A → ManualExecutor) → Option (A × Memory) → Option (List Event)
log_of e none = none
log_of e (some (a, m)) = some (e a).log

drained :
    log_of
      (λ p. p.1)
      ((execute empty 3 >>= λ e. yield_execute e 4 >>= drain spawns on_heap) unlinked)
    ≡ some (ran 3 ∷ ran 4 ∷ [])
unfolding execute yield_execute run_next run_at_most run_loop run_routine execute_all drain push
    try_pop discard_all store_next load_next
drained = refl

-- `Execute(nullptr)` counts a routine that is not in the queue, and `RunNext` calls through null.
null_counted : (execute empty null >>= run_next spawns on_heap) unlinked ≡ none
unfolding execute yield_execute run_next run_at_most run_loop run_routine execute_all drain push
    try_pop discard_all store_next load_next
null_counted = refl

-- Executing a routine that waits already cuts the queue behind it, and `Drain` calls through null.
queued_twice :
    (execute empty 1 >>= λ e. execute e 4 >>= λ e'. execute e' 1 >>= drain spawns on_heap) unlinked
    ≡ none
unfolding execute yield_execute run_next run_at_most run_loop run_routine execute_all drain push
    try_pop discard_all store_next load_next
queued_twice = refl

destroyed :
    log_of (λ e. e) ((execute empty 1 >>= λ e. execute e 2 >>= discard_all on_heap 3) unlinked)
    ≡ some (discarded 2 ∷ [])
unfolding execute yield_execute run_next run_at_most run_loop run_routine execute_all drain push
    try_pop discard_all store_next load_next
destroyed = refl

counted : (task_count waiting ≡ 2) × (has_tasks waiting ≡ false) × (has_tasks empty ≡ true)
unfolding task_count has_tasks
counted = (refl, refl, refl)
