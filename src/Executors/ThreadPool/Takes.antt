-- ===== src/Executors/ThreadPool/Takes.antt =====
-- executors/thread_pool: taking a routine loses and duplicates none.
use concurrency_library.Common.{
  ==_iff, ℕ, ◌+◌, ◌/◌, ◌<◌, ◌≤◌, ◌≡◌, refl, ap, ◌∙◌, Bool, true, false, Bool-cases, inl, inr, ◌||◌,
  not, List, [], ◌∷◌, min, ◌==◌, ltb, length, length-append, take, drop, take-append-drop, arith,
}
use concurrency_library.LockFree.Bounded
use concurrency_library.Executors.ThreadPool.{
  Routine, null, local_queue_size, ThreadPool, with_local, push_local,
}
use concurrency_library.Executors.ThreadPool.Take.{
  take_lifo, take_local, push_all_local, take_global, rob, take_grab, Source, lifo_slot,
  local_queue, global_queue, grab, take_from, count_lifo, try_take_loop, try_take,
}
use concurrency_library.Executors.ThreadPool.Count.{count, count-take-drop}
use concurrency_library.Executors.ThreadPool.Conserves.{
  Fits, Moves, Moves-trans, Moves-recount, with_local-Moves, push_local-Moves,
}

-- The weight of the result is gone from the queues, and all else is still there.
abbrev pub Takes : (Routine → ℕ) → ThreadPool → Routine × ThreadPool → Type 0
Takes w p (r, p') = Moves w (w r) 0 p p'

module _ (w : Routine → ℕ) (not_null : w null ≡ 0) where
  count-pop : (xs : List Routine) → w (Bounded.pop xs).0 + count w (Bounded.pop xs).1 ≡ count w xs
  count-pop [] = omega (arith, not_null)
  count-pop (x ∷ xs) = refl

  length-pop_le : (xs : List Routine) → length (Bounded.pop xs).1 ≤ length xs
  length-pop_le [] = omega arith
  length-pop_le (x ∷ xs) = omega arith

  push_all_local-Moves :
      (rs : List Routine) (p : ThreadPool) (i : ℕ)
      → Fits p
      → i < p.workers
      → Moves w 0 (count w rs) p (push_all_local p rs i)
  unfolding push_all_local
  push_all_local-Moves [] p i fits lt = record {
    counted = refl;
    same_workers = refl;
    same_queued = refl;
    same_unfinished = refl;
    more_robbers = omega arith;
    fits = fits;
  }
  push_all_local-Moves (r ∷ rs) p i fits lt =
      let first = push_local-Moves w p r i fits lt in
      Moves-trans 0 (count w (r ∷ rs)) first
        (push_all_local-Moves rs (push_local p r i) i first.fits
          (omega (arith, first.same_workers)))
        (omega arith)

  is_null : (r : Routine) → (r == null) ≡ true → w r ≡ 0
  is_null r e = ap w ((==_iff r null).0 e) ∙ not_null

  -- Replacing the global queue.
  with_global-Moves :
      (p : ThreadPool) (xs : List Routine)
      → Fits p
      → Moves w (count w p.global_queue) (count w xs) p (record p { global_queue = xs })
  with_global-Moves p xs fits = record {
    counted = omega arith;
    same_workers = refl;
    same_queued = refl;
    same_unfinished = refl;
    more_robbers = omega arith;
    fits = fits;
  }

  module _ (p : ThreadPool) (i : ℕ) (fits : Fits p) (lt : i < p.workers) where
    take_lifo-Takes : Takes w p (take_lifo p i)
    unfolding take_lifo
    take_lifo-Takes =
        Moves-recount (w (p.locals i).lifo_slot) 0
          (with_local-Moves w p fits i lt (record (p.locals i) { lifo_slot = null }) (fits i))
          (omega (arith, not_null))

    take_local-Takes : Takes w p (take_local p i)
    unfolding take_local
    take_local-Takes =
        let q = (p.locals i).queue in
        Moves-recount (w (Bounded.pop q).0) 0
          (with_local-Moves w p fits i lt (record (p.locals i) { queue = (Bounded.pop q).1 })
            (omega (arith, fits i, length-pop_le q)))
          (omega (arith, count-pop q))

    take_global-Takes : (share : Bool) → Takes w p (take_global p i share)
    unfolding take_global
    take_global-Takes share =
        let (result, rest) = Bounded.pop p.global_queue in
        let n = min (local_queue_size / 2) (length rest / p.workers) in
        elim (Bool-cases (result == null || not share || n == 0)) [
          | inl alone ↦ rw alone (
              Moves-recount (w result) 0 (with_global-Moves p rest fits)
                (omega (arith, count-pop p.global_queue)))
          | inr shared ↦ rw shared (
              let left = with_global-Moves p (drop n rest) fits in
              Moves-trans (w result) 0 left
                (push_all_local-Moves (take n rest) (record p { global_queue = drop n rest }) i fits
                  lt)
                (omega (arith, count-pop p.global_queue, count-take-drop w n rest)))
        ]

    rob-Takes : (from : ℕ) → from < p.workers → Takes w p (rob p i from)
    unfolding rob
    rob-Takes from lt' =
        let l = p.locals from in
        let left =
          with_local-Moves w p fits from lt'
            (record l { queue = drop (local_queue_size / 4) l.queue })
            (omega (
              arith,
              fits from,
              ap length (take-append-drop (local_queue_size / 4) l.queue),
              length-append (take (local_queue_size / 4) l.queue)
                  (drop (local_queue_size / 4) l.queue),
            )) in
        let stolen = take (local_queue_size / 4) l.queue in
        Moves-trans (w (Bounded.pop stolen).0) 0 left
          (push_all_local-Moves (Bounded.pop stolen).1
            (with_local p from (record l { queue = drop (local_queue_size / 4) l.queue })) i
            left.fits lt)
          (omega (arith, count-pop stolen, count-take-drop w (local_queue_size / 4) l.queue))

  take_grab-Takes :
      (p : ThreadPool) (i from : ℕ)
      → Fits p
      → i < p.workers
      → from < p.workers
      → Takes w p (take_grab p i from)
  unfolding take_grab
  take_grab-Takes p i from fits lt lt' = elim (Bool-cases (ltb p.robbers_count p.workers)) [
    | inl few ↦ rw few (
        let robbed =
          rob-Takes (record p { robbers_count = p.robbers_count + 1 }) i fits lt from lt' in
        record {
          counted = robbed.counted;
          same_workers = robbed.same_workers;
          same_queued = robbed.same_queued;
          same_unfinished = robbed.same_unfinished;
          more_robbers = omega (arith, robbed.more_robbers);
          fits = robbed.fits;
        })
    | inr many ↦ rw many (record {
      counted = omega (arith, not_null);
      same_workers = refl;
      same_queued = refl;
      same_unfinished = refl;
      more_robbers = omega arith;
      fits = fits;
    })
  ]

  take_from-Takes :
      (source : Source) (p : ThreadPool) (i from : ℕ) (was : Bool)
      → Fits p
      → i < p.workers
      → from < p.workers
      → Takes w p (take_from source p i from was).0
  unfolding take_from
  take_from-Takes lifo_slot p i from was fits lt lt' = take_lifo-Takes p i fits lt
  take_from-Takes local_queue p i from was fits lt lt' = take_local-Takes p i fits lt
  take_from-Takes global_queue p i from was fits lt lt' = take_global-Takes p i fits lt was
  take_from-Takes grab p i from was fits lt lt' = take_grab-Takes p i from fits lt lt'

  try_take_loop-Takes :
      (strategy : List Source) (p : ThreadPool) (i from : ℕ) (was : Bool)
      → Fits p
      → i < p.workers
      → from < p.workers
      → Takes w p (try_take_loop strategy p i from was)
  unfolding try_take_loop
  try_take_loop-Takes [] p i from was fits lt lt' = record {
    counted = omega (arith, not_null);
    same_workers = refl;
    same_queued = refl;
    same_unfinished = refl;
    more_robbers = omega arith;
    fits = fits;
  }
  try_take_loop-Takes (source ∷ strategy) p i from was fits lt lt' =
      let ((result, p'), was') = take_from source p i from was in
      let step : Takes w p (result, p') = take_from-Takes source p i from was fits lt lt' in
      let lt_i : i < p'.workers = omega (arith, step.same_workers) in
      let later =
        try_take_loop-Takes strategy p' i from was' step.fits lt_i
          (omega (arith, step.same_workers)) in
      let l = p'.locals i in
      elim (Bool-cases (result == null)) [
        | inl nothing ↦ rw nothing (
            Moves-trans (w (try_take_loop strategy p' i from was').0) 0 step later
              (omega (arith, is_null result nothing)))
        | inr found ↦ rw found (
            Moves-trans (w result) 0 step
              (with_local-Moves w p' step.fits i lt_i
                (record l { lifo_count = count_lifo source l.lifo_count }) (step.fits i))
              (omega arith))
      ]

-- Every strategy, whatever worker a grab robs: what `TryTake` returns leaves the slots and queues
-- once, and everything else stays in some slot or queue. As `w` may be any weight that ignores
-- null, this says for each routine how often it is in the pool, and also how many there are. The
-- condition is that no local queue is over its capacity and that both workers exist; no local queue
-- is over its capacity afterwards, and the counters of routines stay.
pub try_take-Takes :
    (w : Routine → ℕ) (p : ThreadPool) (i : ℕ) (strategy : List Source) (from : ℕ)
    → w null ≡ 0
    → Fits p
    → i < p.workers
    → from < p.workers
    → Takes w p (try_take p i strategy from)
unfolding try_take
try_take-Takes w p i strategy from not_null fits lt lt' =
    try_take_loop-Takes w not_null strategy p i from false fits lt lt'
