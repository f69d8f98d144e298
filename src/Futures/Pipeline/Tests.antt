-- ===== src/Futures/Pipeline/Tests.antt =====
-- A chain of two futures: the second is made after the promise is set.
use concurrency_library.Common.{ℕ, ◌+◌, ◌≡◌, refl, some}
use concurrency_library.Futures.Result.{
  Result, returned, fresh, set_value, then_invoke, try_set, call_with, value_or_throw,
}
use concurrency_library.Futures.Pipeline.{
  Stage, then_stage, Pipeline, value_is_set, invoke, set, set_callback, attach, Step, promise_set,
  client_attach, run_task, Reach, here, next, answer,
}
use concurrency_library.Futures.Pipeline.Answer.{last_gets_answer}

abbrev up : Stage ℕ
up = then_stage (λ x. returned (x + 1))

abbrev five : Result ℕ
five = set_value fresh 5

record Run : Type 0 where
  at : Pipeline ℕ
  reach : Reach ℕ at

turn : (r : Run) {q : Pipeline ℕ} → Step ℕ r.at q → Run
turn r st = record { at = _; reach = next r.reach st }

abbrev served : Run
unfolding turn set set_callback attach invoke then_invoke try_set call_with value_or_throw
served =
    let r0 : Run = record { at = _; reach = here } in
    let r1 = turn r0 (client_attach up) in
    let r2 = turn r1 (promise_set five refl) in
    let r3 = turn r2 (client_attach up) in
    let r4 = turn r3 (run_task refl refl) in turn r4 (run_task refl refl)

last_gets_answer_example :
    (served.at.word 2 ≡ value_is_set)
    × (answer ℕ served.at.stages five 2 ≡ some (served.at.value 2))
unfolding turn set set_callback attach invoke then_invoke try_set call_with value_or_throw
last_gets_answer_example = last_gets_answer five served.reach refl refl
