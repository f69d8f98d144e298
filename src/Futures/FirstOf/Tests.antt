-- ===== src/Futures/FirstOf/Tests.antt =====
-- `FirstOf` of two futures: the second counts down first.
use concurrency_library.Common.{ℕ, ◌+◌, ◌<◌, ◌≡◌, ◌≢◌, refl, zero, suc, [], ◌∷◌, some, arith}
use concurrency_library.Futures.FirstOf.{
  Pc, done, FirstOfPromise, Move, undefined, load, fetch_sub, use_after_free, is_first, is_last,
  set, delete_record, System, step, Reach, here, next,
}
use concurrency_library.Futures.FirstOf.Winner.{first_of_done}

abbrev tens : ℕ → ℕ
tens i = i + 10

record Run : Type 0 where
  at : System 2 tens
  reach : Reach 2 tens at

turn :
    (r : Run) (i : ℕ) {t : FirstOfPromise} {p : Pc}
    → i < 2
    → Move 2 tens r.at.shared i (r.at.pc i) t p
    → Run
turn r i lt mv = record { at = _; reach = next r.reach (step i lt mv) }

one_ne_two : ◌≢◌ {A = ℕ} 1 2
one_ne_two = omega arith

one_ne_zero : ◌≢◌ {A = ℕ} 1 0
one_ne_zero = omega arith

abbrev chosen : Run
unfolding turn
chosen =
    let r0 : Run = record { at = _; reach = here } in
    let r1 = turn r0 0 (omega arith) load in
    let r2 = turn r1 1 (omega arith) load in turn r2 1 (omega arith) fetch_sub

abbrev ended : Run
unfolding turn
ended =
    let r1 = turn chosen 1 (omega arith) (is_first refl refl) in
    let r2 = turn r1 0 (omega arith) fetch_sub in
    let r3 = turn r2 0 (omega arith) (is_last refl one_ne_two refl) in
    turn r3 0 (omega arith) delete_record

abbrev finished : Run
unfolding turn
finished = turn ended 1 (omega arith) set

finished_done : (i : ℕ) → i < 2 → finished.at.pc i ≡ done
unfolding turn
finished_done zero lt = refl
finished_done (suc zero) lt = refl
finished_done (suc (suc i)) lt = absurd (omega (arith, lt))

first_of_done_example :
    (i : ℕ) × (i < 2)
    × (finished.at.shared.first ≡ some i)
    × (finished.at.shared.sets ≡ tens i ∷ [])
    × (finished.at.shared.promise_deletions ≡ 1)
    × (finished.at.shared.deletions ≡ 1)
first_of_done_example = first_of_done 2 tens finished.reach (omega arith) finished_done

-- The first has counted down; before it reads `futures_count` the last deletes the record.
abbrev freed : Run
unfolding turn
freed =
    let r1 = turn chosen 0 (omega arith) fetch_sub in
    let r2 = turn r1 0 (omega arith) (is_last refl one_ne_two refl) in
    let r3 = turn r2 0 (omega arith) delete_record in
    turn r3 1 (omega arith) (use_after_free one_ne_zero)

freed-undefined : (freed.at.pc 1 ≡ undefined 2) × (freed.at.shared.sets ≡ [])
unfolding turn
freed-undefined = (refl, refl)
