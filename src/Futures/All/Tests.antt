-- ===== src/Futures/All/Tests.antt =====
-- `All` of two futures: the second stores its result first, and the first counts down last.
use concurrency_library.Common.{
  ℕ, ◌+◌, ◌<◌, ◌≡◌, ◌≢◌, refl, zero, suc, List, [], ◌∷◌, none, some, arith,
}
use concurrency_library.Futures.Result.{Result}
use concurrency_library.Futures.All.{
  Value, Pc, done, VectorPromise, Move, store, count_down, count_last, complete, System, step,
  Reach, here, next,
}
use concurrency_library.Futures.All.Answer.{InOrder, set_when_done}

abbrev tens : ℕ → Result Value
tens i = record { value = some (i + 10); exception = none }

two_ne_one : ◌≢◌ {A = ℕ} 2 1
two_ne_one = omega arith

record Run : Type 0 where
  at : System 2 tens
  reach : Reach 2 tens at

turn :
    (r : Run) (i : ℕ) {t : VectorPromise} {p : Pc}
    → i < 2
    → Move 2 tens r.at.shared i (r.at.pc i) t p
    → Run
turn r i lt mv = record { at = _; reach = next r.reach (step i lt mv) }

abbrev both_stored : Run
unfolding turn
both_stored =
    let r0 : Run = record { at = _; reach = here } in
    let r1 = turn r0 1 (omega arith) store in turn r1 0 (omega arith) store

abbrev counted : Run
unfolding turn
counted =
    let r1 = turn both_stored 1 (omega arith) (count_down two_ne_one) in
    turn r1 0 (omega arith) (count_last refl)

abbrev completed : Run
unfolding turn
completed = turn counted 0 (omega arith) complete

completed_done : (i : ℕ) → i < 2 → completed.at.pc i ≡ done
unfolding turn
completed_done zero lt = refl
completed_done (suc zero) lt = refl
completed_done (suc (suc i)) lt = absurd (omega (arith, lt))

set_when_done_example :
    (r : Result (List Value)) × (completed.at.shared.sets ≡ some r ∷ [])
    × InOrder tens 2 r
    × (completed.at.shared.deletions ≡ 1)
set_when_done_example =
    set_when_done 2 tens completed.reach (omega arith) completed_done (λ i lt. refl)
