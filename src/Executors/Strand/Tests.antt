-- ===== src/Executors/Strand/Tests.antt =====
-- Runs of two threads over one strand.
use concurrency_library.Common.{ℕ, zero, suc, ◌<◌, ◌≡◌, refl, [], ◌∷◌, arith}
use concurrency_library.Executors.Strand.{
  Strand, make_queue, Move, Pc, idle, execute, push_win, first, lock_load, lock_win, submit, start,
  run_next, run_done, unlock_win, System, init, step, Reach, here, next,
}
use concurrency_library.Executors.Strand.Safety.{mutual_exclusion, first_in_first_out, nothing_lost}

-- A state with the proof that it is reachable.
record Run : Type 0 where
  at : System
  reach : Reach 2 at

turn : (r : Run) (i : ℕ) {t : Strand} {p : Pc} → i < 2 → Move r.at.strand (r.at.pc i) t p → Run
turn r i lt mv = record { at = _; reach = next r.reach (step i lt mv) }

-- Thread 0 submits routine 5 and queues the batch; thread 1 runs it while thread 0 submits 6.
abbrev submitted_one : Run
unfolding turn make_queue
submitted_one =
    let r0 : Run = record { at = init; reach = here } in
    let r1 = turn r0 0 (omega arith) (execute 5 (omega arith) (omega arith)) in
    let r2 = turn r1 0 (omega arith) (push_win refl) in
    let r3 = turn r2 0 (omega arith) (first refl) in
    let r4 = turn r3 0 (omega arith) lock_load in
    let r5 = turn r4 0 (omega arith) (lock_win refl) in turn r5 0 (omega arith) submit

-- Thread 1 has begun to run the batch.
abbrev begun : Run
unfolding turn make_queue
begun =
    let r1 = turn submitted_one 1 (omega arith) (start (omega arith)) in
    turn r1 1 (omega arith) (run_next refl)

-- All is done, and the strand is free again.
abbrev finished : Run
unfolding turn make_queue
finished =
    let r1 = turn begun 1 (omega arith) (run_done refl) in turn r1 1 (omega arith) (unlock_win refl)

begun_state : (begun.at.strand.ran ≡ 5 ∷ []) × (begun.at.strand.batch ≡ [])
unfolding turn make_queue
begun_state = (refl, refl)

mutual_exclusion_example : (◌≡◌ {A = ℕ} 1 1) × (begun.at.strand.queued ≡ 0)
unfolding turn make_queue
mutual_exclusion_example = mutual_exclusion begun.reach 1 1 (omega arith) (omega arith) refl refl

first_in_first_out_example : submitted_one.at.strand.submitted ≡ 5 ∷ []
unfolding turn make_queue
first_in_first_out_example = first_in_first_out submitted_one.reach

finished_quiet : (i : ℕ) → finished.at.pc i ≡ idle
unfolding turn make_queue
finished_quiet zero = refl
finished_quiet (suc zero) = refl
finished_quiet (suc (suc i)) = ground arith

nothing_lost_example : finished.at.strand.ran ≡ finished.at.strand.submitted
unfolding turn make_queue
nothing_lost_example = nothing_lost finished.reach finished_quiet refl
