-- ===== src/Futures/Contract.antt =====
-- futures/future_value.hpp, promise.hpp and future.hpp: the value that a promise and a future share,
-- and the race between them. The two owners are interleaved, one atomic operation at a time.
pub mod Invariant
pub mod PromiseSide
pub mod FutureSide
pub mod Once
mod Tests
use concurrency_library.Common.{
  ℕ, ◌+◌, ◌-◌, ◌==◌, ◌≡◌, ◌≢◌, Bool, true, false, not, Option, none, some, List, [], ◌∷◌, ◌++◌,
  if◌then◌else◌,
}

-- A result, with a value or an exception; a callback and an executor, by their addresses.
abbrev pub Outcome : Type 0
Outcome = ℕ

abbrev pub Callback : Type 0
Callback = ℕ

abbrev pub Executor : Type 0
Executor = ℕ

-- What the atomic pointer `callback` holds: null, `kValueIsSet`, or a callback.
pub data Word : Type 0 where
  empty : Word
  value_is_set : Word
  hooked : (c : Callback) → Word

-- A task given to an executor: call the callback with the result.
pub record Task : Type 0 where
  pub callback : Word
  pub outcome : Option Outcome  -- `none` is an empty result, as it is after it was moved from
  pub executor : Option Executor  -- `none` is a call through null

-- Which compare-exchanges have succeeded, in which order: the promise sets a result, and the future
-- with executor `e` sets callback `c`.
pub data Race : Type 0 where
  neither : Race
  set_only : (r : Outcome) → Race
  hook_only : (e : Executor) (c : Callback) → Race
  set_first : (r : Outcome) (e : Executor) (c : Callback) → Race
  hook_first : (e : Executor) (c : Callback) (r : Outcome) → Race

-- `FutureValue`, with the tasks executed so far and how often it was deleted.
pub record FutureValue : Type 0 where
  pub value : Option Outcome
  pub word : Word
  pub executor : Option Executor
  pub owners_count : ℕ
  pub executed : List Task
  pub deletions : ℕ
  pub race : Race

-- Where the owner of the promise stands.
pub data PromisePc : Type 0 where
  fresh : PromisePc
  stored : (r : Outcome) → PromisePc  -- start of the loop of `Set`
  swapping : (r : Outcome) (old : Word) → PromisePc
  testing : (r : Outcome) (old : Word) → PromisePc  -- behind the loop
  dropping : PromisePc  -- start of the destructor
  dropped : PromisePc

-- Where the owner of the future stands.
pub data FuturePc : Type 0 where
  semi : FuturePc
  future : (e : Executor) → FuturePc
  hooking : (e : Executor) (c : Callback) → FuturePc  -- start of `SetCallback`
  hook_swapping : (e : Executor) (c : Callback) (old : Word) → FuturePc
  hook_testing : (e : Executor) (c : Callback) (old : Word) → FuturePc  -- behind the loop
  got : (result : Option Outcome) → FuturePc  -- what `GetResult` returned
  future_dropping : FuturePc
  future_dropped : FuturePc

abbrev pub set_race : Outcome → Race → Race
set_race r (hook_only e c) = hook_first e c r
set_race r _ = set_only r

abbrev pub hook_race : Executor → Callback → Race → Race
hook_race e c (set_only r) = set_first r e c
hook_race e c _ = hook_only e c

-- `Executors::Execute` of the callback with the value, which is moved away.
abbrev pub execute : FutureValue → Word → FutureValue
execute s c = record s {
  value = none;
  executed = s.executed ++ record { callback = c; outcome = s.value; executor = s.executor } ∷ [];
}

-- `Destroy`
abbrev pub destroy : FutureValue → FutureValue
destroy s = record s {
  owners_count = s.owners_count - 1;
  deletions = if s.owners_count == 1 then s.deletions + 1 else s.deletions;
}

-- One step of the owner of the promise.
pub data Promise (s : FutureValue) : PromisePc → FutureValue → PromisePc → Type 0 where
  store : (r : Outcome) → Promise s fresh (record s { value = some r }) (stored r)
  load : {r : Outcome} → Promise s (stored r) s (swapping r s.word)
  win :
      {r : Outcome} {old : Word}
      → s.word ≡ old
      → Promise s
          (swapping r old)
          (record s { word = value_is_set; race = set_race r s.race })
          (testing r old)
  -- the weak compare-exchange may fail for no reason
  lose : {r : Outcome} {old : Word} → Promise s (swapping r old) s (swapping r s.word)
  run :
      {r : Outcome} {old : Word} → old ≢ empty → Promise s (testing r old) (execute s old) dropping
  notify : {r : Outcome} {old : Word} → old ≡ empty → Promise s (testing r old) s dropping
  abandon : Promise s fresh s dropping
  drop_promise : Promise s dropping (destroy s) dropped

-- One step of the owner of the future.
pub data Future (s : FutureValue) : FuturePc → FutureValue → FuturePc → Type 0 where
  via : (e : Executor) → Future s semi (record s { executor = some e }) (future e)
  hook : {e : Executor} (c : Callback) → Future s (future e) s (hooking e c)
  hook_load : {e : Executor} {c : Callback} → Future s (hooking e c) s (hook_swapping e c s.word)
  hook_win :
      {e : Executor} {c : Callback} {old : Word}
      → s.word ≡ old
      → Future s
          (hook_swapping e c old)
          (record s { word = hooked c; race = hook_race e c s.race })
          (hook_testing e c old)
  hook_lose :
      {e : Executor} {c : Callback} {old : Word}
      → Future s (hook_swapping e c old) s (hook_swapping e c s.word)
  hook_run :
      {e : Executor} {c : Callback} {old : Word}
      → old ≡ value_is_set
      → Future s (hook_testing e c old) (execute s (hooked c)) future_dropping
  hook_leave :
      {e : Executor} {c : Callback} {old : Word}
      → old ≢ value_is_set
      → Future s (hook_testing e c old) s future_dropping
  -- `GetResult` of either kind of future
  get_semi : s.word ≢ empty → Future s semi (record s { value = none }) (got s.value)
  get_future :
      {e : Executor}
      → s.word ≢ empty
      → Future s (future e) (record s { value = none }) (got s.value)
  abandon_semi : Future s semi s future_dropping
  abandon_future : {e : Executor} → Future s (future e) s future_dropping
  abandon_got : {x : Option Outcome} → Future s (got x) s future_dropping
  drop_future : Future s future_dropping (destroy s) future_dropped

pub record System : Type 0 where
  pub shared : FutureValue
  pub promise : PromisePc
  pub future_side : FuturePc

-- `MakeContract`
abbrev pub init : System
init = record {
  shared = record {
    value = none;
    word = empty;
    executor = none;
    owners_count = 2;
    executed = [];
    deletions = 0;
    race = neither;
  };
  promise = fresh;
  future_side = semi;
}

pub data Step (s : System) : System → Type 0 where
  by_promise :
      {t : FutureValue} {p : PromisePc}
      → Promise s.shared s.promise t p
      → Step s (record s { shared = t; promise = p })
  by_future :
      {t : FutureValue} {f : FuturePc}
      → Future s.shared s.future_side t f
      → Step s (record s { shared = t; future_side = f })

pub data Reach : System → Type 0 where
  here : Reach init
  next : {s t : System} → Reach s → Step s t → Reach t
