-- ===== src/Futures/Pipeline.antt =====
-- futures/future.hpp and futures/promise.hpp: a chain of futures, each the `Then` or `Recover` of the
-- one before. `Set` and `SetCallback` are one step each here; `Contract` has their race. The
-- executor runs its tasks later, in any order with what the client does.
pub mod Invariant
pub mod Answer
mod Tests
use concurrency_library.Common.{
  ℕ, zero, suc, ◌+◌, ◌≡◌, Bool, true, false, Option, none, some, List, [], ◌∷◌, ◌++◌, update, ◌==◌,
  if◌then◌else◌,
}
use concurrency_library.Futures.Result.{Exception, Result, Call, fresh, then_invoke, recover_invoke}

module _ (T : Type 0) where
  -- The callback that `Then` or `Recover` makes for its functor.
  pub data Stage : Type 0 where
    then_stage : (T → Call T) → Stage
    recover_stage : (Option Exception → Call T) → Stage

  -- What `ICallback::Invoke` sets the promise of the next future to; `none` is a fault.
  unfoldable pub invoke : Stage → Result T → Option (Result T)
  unfolding then_invoke recover_invoke
  invoke (then_stage f) r = then_invoke f r
  invoke (recover_stage f) r = recover_invoke f r

  -- The pointer `callback` of a future's value.
  pub data Word : Type 0 where
    empty : Word
    value_is_set : Word
    attached : Stage → Word

  -- A routine of the executor that invokes a callback.
  pub record Task : Type 0 where
    pub place : ℕ
    pub result : Result T
    pub stage : Stage

  pub record Pipeline : Type 0 where
    pub value : ℕ → Result T  -- the results in the futures' values
    pub word : ℕ → Word
    pub made : ℕ  -- the place of the last future, which the client holds
    pub tasks : List Task
    pub given : Option (Result T)  -- what the promise of the first future was set to
    pub stages : ℕ → Option Stage  -- the callbacks that the futures got

  abbrev pub init : Pipeline
  init = record {
    value = λ _. fresh;
    word = λ _. empty;
    made = 0;
    tasks = [];
    given = none;
    stages = λ _. none;
  }

  -- The rest of `Promise::Set`, after the exchange has given the old pointer.
  abbrev pub after_set : Pipeline → ℕ → Result T → Word → Pipeline
  after_set p k r (attached s) = record p {
    value = update p.value k fresh;
    word = update p.word k value_is_set;
    tasks = p.tasks ++ record { place = k; result = r; stage = s } ∷ [];
  }
  after_set p k r _ = record p { value = update p.value k r; word = update p.word k value_is_set }

  unfoldable pub set : Pipeline → ℕ → Result T → Pipeline
  set p k r = after_set p k r (p.word k)

  -- The rest of `Future::SetCallback`, after the exchange has given the old pointer.
  abbrev pub after_set_callback : Pipeline → ℕ → Stage → Word → Pipeline
  after_set_callback p k s value_is_set = record p {
    value = update p.value k fresh;
    word = update p.word k (attached s);
    tasks = p.tasks ++ record { place = k; result = p.value k; stage = s } ∷ [];
  }
  after_set_callback p k s _ = record p { word = update p.word k (attached s) }

  unfoldable pub set_callback : Pipeline → ℕ → Stage → Pipeline
  set_callback p k s = after_set_callback p k s (p.word k)

  -- `ThenImpl` and `Recover`: a new future, and the callback for the last one.
  unfoldable pub attach : Pipeline → Stage → Pipeline
  unfolding set_callback
  attach p s =
      set_callback (record p { made = p.made + 1; stages = update p.stages p.made (some s) }) p.made
        s

  pub data Step (p : Pipeline) : Pipeline → Type 0 where
    promise_set : (r : Result T) → p.given ≡ none → Step p (set (record p { given = some r }) 0 r)
    client_attach : (s : Stage) → Step p (attach p s)
    run_task :
        {t : Task} {ts : List Task} {r : Result T}
        → p.tasks ≡ t ∷ ts
        → invoke t.stage t.result ≡ some r
        → Step p (set (record p { tasks = ts }) (t.place + 1) r)

  pub data Reach : Pipeline → Type 0 where
    here : Reach init
    next : {p q : Pipeline} → Reach p → Step p q → Reach q

  -- What the first `m` callbacks make of a result, one after the other.
  abbrev pub feed : Option Stage → Option (Result T) → Option (Result T)
  feed (some s) (some r) = invoke s r
  feed _ _ = none

  unfoldable pub answer : (ℕ → Option Stage) → Result T → ℕ → Option (Result T)
  answer stages r zero = some r
  answer stages r (suc m) = feed (stages m) (answer stages r m)
