-- ===== src/Fibers/Life/Tests.antt =====
-- A fiber that suspends once and is scheduled again before `Discard` is called for its first run, and
-- then completes, or is dropped by its executor.
use concurrency_library.Common.{◌≡◌, refl, false, arith}
use concurrency_library.Fibers.Life.{
  Fiber, suspend, complete, schedule, discard, run_suspend, run_complete, resume, call_discard,
  drop, Reach, here, next,
}

record Run : Type 0 where
  at : Fiber
  reach : Reach at

abbrev finished : Run
unfolding suspend complete schedule discard
finished =
    let again : Run = record {
      at = _;
      reach = next (next here (run_suspend refl)) (resume refl refl refl);
    } in
    let runs : Run = record { at = _; reach = next again.reach (run_complete refl) } in
    let once : Run = record { at = _; reach = next runs.reach (call_discard (omega arith)) } in
    record { at = _; reach = next once.reach (call_discard (omega arith)) }

abbrev dropped : Run
unfolding discard
dropped = record { at = _; reach = next here (drop refl) }

dropped-deleted : (dropped.at.deletions ≡ 1) × (dropped.at.completed ≡ false)
unfolding discard
dropped-deleted = (refl, refl)
