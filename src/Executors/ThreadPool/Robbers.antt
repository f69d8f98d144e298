-- ===== src/Executors/ThreadPool/Robbers.antt =====
-- executors/thread_pool: `robbers_count_` over the life of a pool.
use concurrency_library.Executors.ThreadPool.Idle.{push_global-Moves}
use concurrency_library.Common.{
  ◌∙◌, ℕ, ◌<◌, ◌≤◌, ◌≡◌, refl, false, List, [], ◌∷◌, ltb, arith, inc64,
}
use concurrency_library.Executors.ThreadPool.{
  Routine, null, ThreadPool, Hint, lifo, local_queue, global_queue, execute_hint,
}
use concurrency_library.Executors.ThreadPool.Take.{Source, take_grab, try_take}
use concurrency_library.Executors.ThreadPool.Conserves.{
  Fits, Moves, push_local-Moves, push_lifo-Moves,
}
use concurrency_library.Executors.ThreadPool.Takes.{try_take-Takes}

-- What the threads do with the queues: execute a routine in a thread, or take one as a worker.
pub data Action : Type 0 where
  executes : Routine → Hint → ℕ → Action
  takes : ℕ → List Source → ℕ → Action

unfoldable pub act : Action → ThreadPool → ThreadPool
unfolding execute_hint try_take
act (executes r hint thread) p = execute_hint p r hint thread
act (takes i strategy from) p = (try_take p i strategy from).1

unfoldable pub act_all : List Action → ThreadPool → ThreadPool
unfolding act
act_all [] p = p
act_all (a ∷ as') p = act_all as' (act a p)

-- The workers of the actions exist.
abbrev pub InPool : ℕ → List Action → Type 0
InPool n [] = Unit {0}
InPool n (executes r hint thread ∷ rest) = (thread < n) × InPool n rest
InPool n (takes i strategy from ∷ rest) = (i < n) × (from < n) × InPool n rest

-- The pool has `n` workers, no local queue over its capacity, and has had as many robbers as workers.
record Worn (n : ℕ) (p : ThreadPool) : Type 0 where
  fits : Fits p
  workers : p.workers ≡ n
  worn : n ≤ p.robbers_count

abbrev weightless : Routine → ℕ
weightless r = 0

Moves-Worn :
    {w : Routine → ℕ} {gone new : ℕ} (n : ℕ) {p p' : ThreadPool}
    → Moves w gone new p p'
    → Worn n p
    → Worn n p'
Moves-Worn n m h = record {
  fits = m.fits;
  workers = m.same_workers ∙ h.workers;
  worn = omega (arith, m.more_robbers, h.worn);
}

execute_hint-Worn :
    (n : ℕ) (p : ThreadPool) (r : Routine) (hint : Hint) (thread : ℕ)
    → Worn n p
    → thread < n
    → Worn n (execute_hint p r hint thread)
unfolding execute_hint
execute_hint-Worn n p r hint thread h lt = go hint
  where
    q : ThreadPool
    q = record p { unfinished = inc64 p.unfinished }

    lt' : thread < p.workers
    lt' = omega (arith, h.workers)

    queued :
        {w : Routine → ℕ} {new : ℕ} {p' : ThreadPool}
        → Moves w 0 new q p'
        → Worn n (record p' { routines_in_queue = inc64 p'.routines_in_queue })
    queued m = record {
      fits = m.fits;
      workers = m.same_workers ∙ h.workers;
      worn = omega (arith, m.more_robbers, h.worn);
    }

    go : (hint : Hint) → Worn n (execute_hint p r hint thread)
    go lifo = queued (push_lifo-Moves weightless q r thread refl h.fits lt')
    go local_queue = queued (push_local-Moves weightless q r thread h.fits lt')
    go global_queue = queued (push_global-Moves weightless q r h.fits)

act_all-Worn :
    (n : ℕ) (as' : List Action) (p : ThreadPool) → Worn n p → InPool n as' → Worn n (act_all as' p)
unfolding act_all
act_all-Worn n [] p h within = h
act_all-Worn n (executes r hint thread ∷ rest) p h (lt, within) =
    act_all-Worn n rest (act (executes r hint thread) p) (execute_hint-Worn n p r hint thread h lt)
      within
act_all-Worn n (takes i strategy from ∷ rest) p h (lt, lt', within) =
    let m =
      try_take-Takes weightless p i strategy from refl h.fits (omega (arith, h.workers))
        (omega (arith, h.workers)) in
    act_all-Worn n rest (act (takes i strategy from) p) (Moves-Worn n m h) within

-- Once `robbers_count_` has reached the number of workers, no worker ever robs another again: if no
-- local queue is over its capacity, then after any further executes and takes in threads of the
-- pool `TryGrabRoutineFromLocalQueue` returns null and changes nothing, whatever stands in the
-- other local queues.
pub take_grab-starves :
    (p : ThreadPool) (actions : List Action) (to from : ℕ)
    → Fits p
    → p.workers ≤ p.robbers_count
    → InPool p.workers actions
    → take_grab (act_all actions p) to from ≡ (null, act_all actions p)
unfolding take_grab
take_grab-starves p actions to from fits worn within =
    let h =
      act_all-Worn p.workers actions p (record { fits = fits; workers = refl; worn = worn })
        within in
    rw (refuses (act_all actions p) (omega (arith, h.worn, h.workers))) refl
  where
    refuses : (q : ThreadPool) → q.workers ≤ q.robbers_count → ltb q.robbers_count q.workers ≡ false
    refuses q le = ground arith
