-- ===== src/Executors/ThreadPool/Idle.antt =====
-- executors/thread_pool/with_waitidle: the counters `routines_in_queue_` and `routines_wg_`, and what
-- it means that `WaitIdle` returns.
use concurrency_library.Common.{
  ◌↔◌, ℕ, ◌+◌, ◌<◌, ◌^◌, ◌≡◌, ◌≢◌, refl, Bool, true, false, Bool-cases, inl, inr, [], ◌∷◌, ◌==◌,
  if◌then◌else◌, arith, inc64, dec64,
}
use concurrency_library.Executors.ThreadPool.{
  Routine, null, ThreadPool, Hint, lifo, local_queue, global_queue, push_lifo, push_local,
  push_global, execute_hint,
}
use concurrency_library.Executors.ThreadPool.Take.{try_take}
use concurrency_library.Executors.ThreadPool.Count.{count-append, count_pool}
use concurrency_library.Executors.ThreadPool.Conserves.{
  Fits, Moves, push_local-Moves, push_lifo-Moves,
}
use concurrency_library.Executors.ThreadPool.Takes.{try_take-Takes}
use concurrency_library.Executors.ThreadPool.Worker.{choose_strategy, is_idle, serve, worker_round}

-- Weight 1 for a routine, 0 for null.
abbrev pub one : Routine → ℕ
one r = if r == null then 0 else 1

-- With `running` routines taken and not finished, both counters are right.
pub record Counts (running : ℕ) (p : ThreadPool) : Type 0 where
  pub fits : Fits p
  pub queued : p.routines_in_queue ≡ count_pool one p
  pub unfinished_count : p.unfinished ≡ count_pool one p + running
  pub bounded : p.unfinished < 2 ^ 64

one_not_null : (r : Routine) → r ≢ null → one r ≡ 1
one_not_null r ne = ground arith

one_null : (r : Routine) → (r == null) ≡ true → one r ≡ 0
one_null r e = ground arith

one_found : (r : Routine) → (r == null) ≡ false → one r ≡ 1
one_found r e = ground arith

pub push_global-Moves :
    (w : Routine → ℕ) (p : ThreadPool) (r : Routine) → Fits p → Moves w 0 (w r) p (push_global p r)
unfolding push_global
push_global-Moves w p r fits = record {
  counted = omega (arith, count-append w p.global_queue (r ∷ []));
  same_workers = refl;
  same_queued = refl;
  same_unfinished = refl;
  more_robbers = omega arith;
  fits = fits;
}

-- `Execute(routine, hint)`, with any hint, of a routine other than null, in a thread of the pool,
-- where the counters are right and have room for one more: the slots and queues have the routines
-- that they had and that one, each as often as before and that one once more, as `w` may be any
-- weight that ignores null; and the counters are right afterwards.
pub execute_hint-Counts :
    (w : Routine → ℕ) (p : ThreadPool) (r : Routine) (hint : Hint) (thread running : ℕ)
    → w null ≡ 0
    → Counts running p
    → r ≢ null
    → thread < p.workers
    → p.unfinished + 1 < 2 ^ 64
    → (count_pool w (execute_hint p r hint thread) ≡ count_pool w p + w r)
      × Counts running (execute_hint p r hint thread)
unfolding execute_hint
execute_hint-Counts w p r hint thread running ignores c ne lt room = go hint
  where
    q : ThreadPool
    q = record p { unfinished = inc64 p.unfinished }

    settle :
        (p' : ThreadPool)
        → Moves w 0 (w r) q p'
        → Moves one 0 (one r) q p'
        → (count_pool w p' ≡ count_pool w p + w r)
          × Counts running (record p' { routines_in_queue = inc64 p'.routines_in_queue })
    settle p' mw m = (
      omega (arith, mw.counted),
      record {
        fits = m.fits;
        queued =
            omega
              (arith, m.counted, m.same_queued, c.queued, c.unfinished_count, one_not_null r ne);
        unfinished_count =
            omega (arith, m.counted, m.same_unfinished, c.unfinished_count, one_not_null r ne);
        bounded = omega (arith, m.same_unfinished);
      },
    )

    go :
        (hint : Hint)
        → (count_pool w (execute_hint p r hint thread) ≡ count_pool w p + w r)
          × Counts running (execute_hint p r hint thread)
    go lifo =
        settle (push_lifo q r thread) (push_lifo-Moves w q r thread ignores c.fits lt)
          (push_lifo-Moves one q r thread refl c.fits lt)
    go local_queue =
        settle (push_local q r thread) (push_local-Moves w q r thread c.fits lt)
          (push_local-Moves one q r thread c.fits lt)
    go global_queue =
        settle (push_global q r) (push_global-Moves w q r c.fits) (push_global-Moves one q r c.fits)

module _ (run discard : Routine → ThreadPool → ThreadPool) (on_heap : Routine → Bool) where
  serve-Counts :
      (running : ℕ)
      → ((r : Routine) (p : ThreadPool) → Counts (running + 1) p → Counts (running + 1) (run r p))
      → ((r : Routine) (p : ThreadPool)
          → Counts (running + 1) p
          → Counts (running + 1) (discard r p))
      → (p p' : ThreadPool) (r : Routine) → Counts running p
      → Moves one (one r) 0 p p'
      → (r == null) ≡ false
      → Counts running (serve run discard on_heap p' r)
  unfolding serve
  serve-Counts running run_ok discard_ok p p' r c m found =
      let taken = record p' { routines_in_queue = dec64 p'.routines_in_queue } in
      let started : Counts (running + 1) taken = record {
        fits = m.fits;
        queued = omega (
          arith,
          m.counted,
          m.same_queued,
          c.queued,
          c.unfinished_count,
          c.bounded,
          one_found r found,
        );
        unfinished_count =
            omega (arith, m.counted, m.same_unfinished, c.unfinished_count, one_found r found);
        bounded = omega (arith, m.same_unfinished, c.bounded);
      } in
      finish (on_heap r) (run r taken) (run_ok r taken started)
    where
      done :
          (q : ThreadPool)
          → Counts (running + 1) q
          → Counts running (record q { unfinished = dec64 q.unfinished })
      done q c = record {
        fits = c.fits;
        queued = c.queued;
        unfinished_count = omega (arith, c.unfinished_count, c.bounded);
        bounded = omega arith;
      }

      finish :
          (b : Bool) (q : ThreadPool)
          → Counts (running + 1) q
          → Counts running (record (if b then discard r q else q) {
            unfinished = dec64 (if b then discard r q else q).unfinished;
          })
      finish true q c = done (discard r q) (discard_ok r q c)
      finish false q c = done q c

  -- A pass of `WorkerRoutine` keeps the counters right, whatever it finds, if the virtual `Run` and
  -- `Discard` of the routines keep them right, with the routine itself among the running ones, and
  -- if both workers exist.
  pub worker_round-Counts :
      (running : ℕ)
      → ((r : Routine) (p : ThreadPool) → Counts (running + 1) p → Counts (running + 1) (run r p))
      → ((r : Routine) (p : ThreadPool)
          → Counts (running + 1) p
          → Counts (running + 1) (discard r p))
      → (p : ThreadPool) (i draw from : ℕ) → Counts running p
      → i < p.workers
      → from < p.workers
      → Counts running (worker_round run discard on_heap p i draw from)
  unfolding worker_round
  worker_round-Counts running run_ok discard_ok p i draw from c lt lt' =
      let r = (try_take p i (choose_strategy p i draw) from).0 in
      let p' = (try_take p i (choose_strategy p i draw) from).1 in
      let m = try_take-Takes one p i (choose_strategy p i draw) from refl c.fits lt lt' in
      elim (Bool-cases (r == null)) [
        | inl nothing ↦ rw nothing (record {
          fits = m.fits;
          queued = omega (arith, m.counted, m.same_queued, c.queued, one_null r nothing);
          unfinished_count =
              omega (arith, m.counted, m.same_unfinished, c.unfinished_count, one_null r nothing);
          bounded = omega (arith, m.same_unfinished, c.bounded);
        })
        | inr found ↦ rw found (serve-Counts running run_ok discard_ok p p' r c m found)
      ]

-- If the counters are right, `WaitIdle` returns exactly if no routine is left in any slot or queue
-- and none is running.
pub is_idle_iff :
    (p : ThreadPool) (running : ℕ)
    → Counts running p
    → (is_idle p ≡ true) ↔ (count_pool one p + running ≡ 0)
unfolding is_idle
is_idle_iff p running c = ground (arith, c.unfinished_count)
