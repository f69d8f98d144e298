-- ===== src/Executors/ThreadPool/WithoutWaitIdle/Forget.antt =====
-- The thread pool without `WaitIdle` is the one with it whose counters are forgotten.
use concurrency_library.Common.{
  ℕ, zero, suc, ◌+◌, ◌/◌, ◌≡◌, refl, ap, ap₂, ◌∙◌, Bool, true, false, ◌||◌, not, List, [], ◌∷◌, min,
  ◌==◌, ltb, if◌then◌else◌, length, take, drop, inc64, dec64,
}
use concurrency_library.LockFree.Bounded
use concurrency_library.Executors.ThreadPool.{
  Routine, null, local_queue_size, ThreadPool, Hint, lifo, local_queue, global_queue, push_global,
  grab_to_global, push_local_loop, push_local, push_lifo, execute_hint, with_local,
}
use concurrency_library.Executors.ThreadPool.Take.{
  take_lifo, take_local, push_all_local, take_global, rob, take_grab, Source, lifo_slot,
  local_queue, global_queue, grab, take_from, count_lifo, try_take_loop, try_take,
}
use concurrency_library.Executors.ThreadPool.Worker.{choose_strategy, serve, worker_round}
use concurrency_library.Executors.ThreadPool.WithoutWaitIdle

-- The pool without the counters.
abbrev pub forget : ThreadPool → WithoutWaitIdle.ThreadPool
forget p = record {
  workers = p.workers;
  locals = p.locals;
  global_queue = p.global_queue;
  robbers_count = p.robbers_count;
}

abbrev pub forget_with : Routine × ThreadPool → Routine × WithoutWaitIdle.ThreadPool
forget_with (r, p) = (r, forget p)

forget-if :
    (b : Bool) (p q : ThreadPool) → forget (if b then p else q) ≡ (if b then forget p else forget q)
forget-if true p q = refl
forget-if false p q = refl

forget_with-if :
    (b : Bool) (x y : Routine × ThreadPool)
    → forget_with (if b then x else y) ≡ (if b then forget_with x else forget_with y)
forget_with-if true x y = refl
forget_with-if false x y = refl

forget-push_local_loop :
    (tries : ℕ) (p : ThreadPool) (r : Routine) (i : ℕ)
    → forget (push_local_loop tries p r i) ≡ WithoutWaitIdle.push_local_loop tries (forget p) r i
unfolding push_local_loop WithoutWaitIdle.push_local_loop grab_to_global
    WithoutWaitIdle.grab_to_global
forget-push_local_loop zero p r i = refl
forget-push_local_loop (suc tries) p r i =
    rw
      (
        forget-if (Bounded.push local_queue_size (p.locals i).queue r).0
            (with_local p i (record (p.locals i) {
              queue = (Bounded.push local_queue_size (p.locals i).queue r).1;
            }))
            (push_local_loop tries (grab_to_global p i) r i),
        forget-push_local_loop tries (grab_to_global p i) r i,
      )
      refl

forget-push_local :
    (p : ThreadPool) (r : Routine) (i : ℕ)
    → forget (push_local p r i) ≡ WithoutWaitIdle.push_local (forget p) r i
unfolding push_local WithoutWaitIdle.push_local
forget-push_local p r i = forget-push_local_loop 2 p r i

forget-push_lifo :
    (p : ThreadPool) (r : Routine) (i : ℕ)
    → forget (push_lifo p r i) ≡ WithoutWaitIdle.push_lifo (forget p) r i
unfolding push_lifo WithoutWaitIdle.push_lifo
forget-push_lifo p r i =
    let p' = with_local p i (record (p.locals i) { lifo_slot = r }) in
    rw
      (
        forget-if ((p.locals i).lifo_slot == null) p' (push_local p' (p.locals i).lifo_slot i),
        forget-push_local p' (p.locals i).lifo_slot i,
      )
      refl

-- `Execute(routine, hint)` of the pool without `WaitIdle` is that of the pool with it whose
-- counters are forgotten, for every hint.
pub forget-execute_hint :
    (p : ThreadPool) (r : Routine) (hint : Hint) (thread : ℕ)
    → forget (execute_hint p r hint thread) ≡ WithoutWaitIdle.execute_hint (forget p) r hint thread
unfolding execute_hint WithoutWaitIdle.execute_hint push_global WithoutWaitIdle.push_global
forget-execute_hint p r lifo thread =
    forget-push_lifo (record p { unfinished = inc64 p.unfinished }) r thread
forget-execute_hint p r local_queue thread =
    forget-push_local (record p { unfinished = inc64 p.unfinished }) r thread
forget-execute_hint p r global_queue thread = refl

forget-push_all_local :
    (rs : List Routine) (p : ThreadPool) (i : ℕ)
    → forget (push_all_local p rs i) ≡ WithoutWaitIdle.push_all_local (forget p) rs i
unfolding push_all_local WithoutWaitIdle.push_all_local
forget-push_all_local [] p i = refl
forget-push_all_local (r ∷ rs) p i =
    forget-push_all_local rs (push_local p r i) i
    ∙ ap (λ q. WithoutWaitIdle.push_all_local q rs i) (forget-push_local p r i)

forget-rob :
    (p : ThreadPool) (to from : ℕ)
    → forget_with (rob p to from) ≡ WithoutWaitIdle.rob (forget p) to from
unfolding rob WithoutWaitIdle.rob
forget-rob p to from =
    let l = p.locals from in
    ap (λ q. ((Bounded.pop (take (local_queue_size / 4) l.queue)).0, q))
      (forget-push_all_local (Bounded.pop (take (local_queue_size / 4) l.queue)).1
        (with_local p from (record l { queue = drop (local_queue_size / 4) l.queue })) to)

forget-take_global :
    (p : ThreadPool) (i : ℕ) (share : Bool)
    → forget_with (take_global p i share) ≡ WithoutWaitIdle.take_global (forget p) i share
unfolding take_global WithoutWaitIdle.take_global
forget-take_global p i share =
    let (result, rest) = Bounded.pop p.global_queue in
    let n = min (local_queue_size / 2) (length rest / p.workers) in
    let shared = push_all_local (record p { global_queue = drop n rest }) (take n rest) i in
    forget_with-if (result == null || not share || n == 0)
      (result, record p { global_queue = rest }) (result, shared)
    ∙ ap
        (λ q.
          if result == null || not share || n == 0
          then (result, forget (record p { global_queue = rest }))
          else (result, q))
        (forget-push_all_local (take n rest) (record p { global_queue = drop n rest }) i)

forget-take_from :
    (source : Source) (p : ThreadPool) (i from : ℕ) (was : Bool)
    → (forget_with (take_from source p i from was).0
        ≡ (WithoutWaitIdle.take_from source (forget p) i from was).0)
      × ((take_from source p i from was).1
          ≡ (WithoutWaitIdle.take_from source (forget p) i from was).1)
unfolding take_from WithoutWaitIdle.take_from take_lifo WithoutWaitIdle.take_lifo take_local
    WithoutWaitIdle.take_local take_grab WithoutWaitIdle.take_grab
forget-take_from lifo_slot p i from was = (refl, refl)
forget-take_from local_queue p i from was = (refl, refl)
forget-take_from global_queue p i from was = (forget-take_global p i was, refl)
forget-take_from grab p i from was =
    let more = record p { robbers_count = p.robbers_count + 1 } in
    (
      forget_with-if (ltb p.robbers_count p.workers) (rob more i from) (null, p)
          ∙ ap (λ x. if ltb p.robbers_count p.workers then x else (null, forget p))
              (forget-rob more i from),
      refl,
    )

-- What the loop of `TryTake` does after one step.
after_take :
    Source
    → List Source
    → ℕ
    → ℕ
    → Routine × WithoutWaitIdle.ThreadPool
    → Bool
    → Routine × WithoutWaitIdle.ThreadPool
after_take source strategy i from (r, q) was =
    let l = q.locals i in
    if r == null then WithoutWaitIdle.try_take_loop strategy q i from was else (
      r,
      WithoutWaitIdle.with_local q i (record l { lifo_count = count_lifo source l.lifo_count }),
    )

forget-try_take_loop :
    (strategy : List Source) (p : ThreadPool) (i from : ℕ) (was : Bool)
    → forget_with (try_take_loop strategy p i from was)
      ≡ WithoutWaitIdle.try_take_loop strategy (forget p) i from was
unfolding try_take_loop WithoutWaitIdle.try_take_loop after_take
forget-try_take_loop [] p i from was = refl
forget-try_take_loop (source ∷ strategy) p i from was =
    let ((r, q), was') = take_from source p i from was in
    let l = q.locals i in
    let found : Routine × ThreadPool =
      (r, with_local q i (record l { lifo_count = count_lifo source l.lifo_count })) in
    let step = forget-take_from source p i from was in
    forget_with-if (r == null) (try_take_loop strategy q i from was') found
    ∙ ap (λ x. if r == null then x else forget_with found)
        (forget-try_take_loop strategy q i from was')
    ∙ ap₂ (after_take source strategy i from) step.0 step.1

-- `TryTake` of the pool without `WaitIdle` is that of the pool with it whose counters are forgotten.
pub forget-try_take :
    (p : ThreadPool) (i : ℕ) (strategy : List Source) (from : ℕ)
    → forget_with (try_take p i strategy from) ≡ WithoutWaitIdle.try_take (forget p) i strategy from
unfolding try_take WithoutWaitIdle.try_take
forget-try_take p i strategy from = forget-try_take_loop strategy p i from false

module _ (run discard : Routine → ThreadPool → ThreadPool)
    (run' discard' : Routine → WithoutWaitIdle.ThreadPool → WithoutWaitIdle.ThreadPool)
    (on_heap : Routine → Bool)
    (same_run : (r : Routine) (p : ThreadPool) → forget (run r p) ≡ run' r (forget p))
    (same_discard : (r : Routine) (p : ThreadPool)
      → forget (discard r p) ≡ discard' r (forget p)) where
  forget-serve :
      (p : ThreadPool) (r : Routine)
      → forget (serve run discard on_heap p r)
        ≡ WithoutWaitIdle.serve run' discard' on_heap (forget p) r
  unfolding serve WithoutWaitIdle.serve
  forget-serve p r =
      let q = run r (record p { routines_in_queue = dec64 p.routines_in_queue }) in
      let same = same_run r (record p { routines_in_queue = dec64 p.routines_in_queue }) in
      forget-if (on_heap r) (discard r q) q
      ∙ ap₂ (λ x y. if on_heap r then x else y) (same_discard r q ∙ ap (discard' r) same) same

  -- What the worker does with what `TryTake` gave.
  after_round : Routine × WithoutWaitIdle.ThreadPool → WithoutWaitIdle.ThreadPool
  after_round (r, q) = if r == null then q else WithoutWaitIdle.serve run' discard' on_heap q r

  -- A pass of `WorkerRoutine` of the pool without `WaitIdle` is that of the pool with it whose
  -- counters are forgotten, if the virtual `Run` and `Discard` of the routines do the same to both
  -- pools.
  pub forget-worker_round :
      (p : ThreadPool) (i draw from : ℕ)
      → forget (worker_round run discard on_heap p i draw from)
        ≡ WithoutWaitIdle.worker_round run' discard' on_heap (forget p) i draw from
  unfolding worker_round WithoutWaitIdle.worker_round after_round choose_strategy
      WithoutWaitIdle.choose_strategy
  forget-worker_round p i draw from =
      let (r, q) = try_take p i (choose_strategy p i draw) from in
      forget-if (r == null) q (serve run discard on_heap q r)
      ∙ ap (λ x. if r == null then forget q else x) (forget-serve q r)
      ∙ ap after_round (forget-try_take p i (choose_strategy p i draw) from)
