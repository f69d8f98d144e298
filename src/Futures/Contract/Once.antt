-- ===== src/Futures/Contract/Once.antt =====
-- futures: what holds of a promise and its future in every interleaving.
use concurrency_library.Common.{◌+◌, ◌==◌, ◌≡◌, refl, ap, ◌∙◌, Option, some, if◌then◌else◌}
use concurrency_library.Futures.Contract.{
  Outcome, Race, neither, set_only, hook_only, set_first, hook_first, FutureValue, PromisePc, got,
  System, by_promise, by_future, Reach, here, next,
}
use concurrency_library.Futures.Contract.Invariant.{Inv, expected, Got, owns_promise, owns_future}
use concurrency_library.Futures.Contract.PromiseSide.{Promise-Inv}
use concurrency_library.Futures.Contract.FutureSide.{Future-Inv}

Reach-Inv : {s : System} → Reach s → Inv s.shared s.promise s.future_side
Reach-Inv here = record {
  word = refl;
  promise_ok = tt;
  future_ok = tt;
  executor_ok = tt;
  value_ok = tt;
  executed = refl;
  owners = refl;
  deleted = refl;
}
Reach-Inv (next {s} r (by_promise m)) = Promise-Inv s.future_side m (Reach-Inv r)
Reach-Inv (next {s} r (by_future m)) = Future-Inv s.promise m (Reach-Inv r)

-- In every interleaving of a promise with its future: nothing is executed until both the result and
-- the callback are set, and then the owner whose exchange was the second gives the executor of the
-- future one task, once, which calls that callback with that result.
pub executed_once :
    {s : System} → Reach s → s.shared.executed ≡ expected s.shared.race s.promise s.future_side
executed_once r = (Reach-Inv r).executed

Got-set_only :
    (race : Race) (x : Option Outcome)
    → Got x race
    → (r : Outcome) × (race ≡ set_only r) × (x ≡ some r)
Got-set_only (set_only r) x g = (r, refl, g)
Got-set_only neither x g = absurd g
Got-set_only (hook_only e c) x g = absurd g
Got-set_only (set_first r e c) x g = absurd g
Got-set_only (hook_first e c r) x g = absurd g

-- In every interleaving, what `GetResult` has returned is the result that the promise has set, and
-- no callback is set.
pub get_result_set :
    {v : FutureValue} {p : PromisePc} {x : Option Outcome}
    → Reach (record { shared = v; promise = p; future_side = got x })
    → (r : Outcome) × (v.race ≡ set_only r) × (x ≡ some r)
get_result_set {v} {p} {x} r = Got-set_only v.race x (Reach-Inv r).future_ok

-- In every interleaving of a promise with its future: the owners count is the number of those that
-- are not yet dropped, and the shared value is deleted once, when both are, and not before, so
-- neither uses it after that.
pub deleted_once :
    {s : System}
    → Reach s
    → (s.shared.owners_count ≡ owns_promise s.promise + owns_future s.future_side)
      × (s.shared.deletions
          ≡ (if owns_promise s.promise + owns_future s.future_side == 0 then 1 else 0))
deleted_once r =
    let h = Reach-Inv r in (h.owners, h.deleted ∙ ap (λ n. if n == 0 then 1 else 0) h.owners)
