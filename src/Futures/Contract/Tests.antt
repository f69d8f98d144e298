-- ===== src/Futures/Contract/Tests.antt =====
-- A run in which the future hooks its callback before the promise sets the result, and one in which
-- `GetResult` takes it.
use concurrency_library.Common.{ℕ, ◌≡◌, ◌≢◌, refl, Option, some, [], ◌∷◌}
use concurrency_library.Futures.Contract.{
  Outcome, empty, value_is_set, set_only, store, load, win, run, notify, drop_promise, via, hook,
  hook_load, hook_win, hook_leave, drop_future, get_semi, System, Step, by_promise, by_future,
  Reach, here, next,
}
use concurrency_library.Futures.Contract.Invariant.{task}
use concurrency_library.Futures.Contract.PromiseSide.{hooked-ne}
use concurrency_library.Futures.Contract.Once.{executed_once, get_result_set, deleted_once}

not_set : empty ≢ value_is_set
not_set = cc

is_set : value_is_set ≢ empty
is_set = cc

record Run : Type 0 where
  at : System
  reach : Reach at

to : (r : Run) {t : System} → Step r.at t → Run
to r m = record { at = _; reach = next r.reach m }

abbrev hooked_first : Run
unfolding to
hooked_first =
    let r0 : Run = record { at = _; reach = here } in
    let r1 = to r0 (by_future (via 9)) in
    let r2 = to r1 (by_future (hook 4)) in
    let r3 = to r2 (by_future hook_load) in
    let r4 = to r3 (by_promise (store 7)) in to r4 (by_future (hook_win refl))

abbrev set_next : Run
unfolding to
set_next =
    let r1 = to hooked_first (by_promise load) in
    let r2 = to r1 (by_promise (win refl)) in to r2 (by_promise (run (hooked-ne 4)))

abbrev both_dropped : Run
unfolding to
both_dropped =
    let r1 = to set_next (by_promise drop_promise) in
    let r2 = to r1 (by_future (hook_leave not_set)) in to r2 (by_future drop_future)

executed_once_example : set_next.at.shared.executed ≡ task 9 4 7 ∷ []
unfolding to
executed_once_example = executed_once set_next.reach

deleted_once_example :
    (both_dropped.at.shared.owners_count ≡ 0) × (both_dropped.at.shared.deletions ≡ 1)
unfolding to
deleted_once_example = deleted_once both_dropped.reach

abbrev set_alone : Run
unfolding to
set_alone =
    let r0 : Run = record { at = _; reach = here } in
    let r1 = to r0 (by_promise (store 7)) in
    let r2 = to r1 (by_promise load) in
    let r3 = to r2 (by_promise (win refl)) in to r3 (by_promise (notify refl))

abbrev taken : Run
unfolding to
taken = to set_alone (by_future (get_semi is_set))

get_result_set_example :
    (r : Outcome) × (taken.at.shared.race ≡ set_only r) × (◌≡◌ {A = Option ℕ} (some 7) (some r))
unfolding to
get_result_set_example = get_result_set taken.reach
