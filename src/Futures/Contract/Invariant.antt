-- ===== src/Futures/Contract/Invariant.antt =====
-- futures: the invariant of a value that a promise and a future share.
use concurrency_library.Common.{
  ℕ, ◌+◌, ◌==◌, ◌≡◌, Bool, true, false, Option, some, List, [], ◌∷◌, if◌then◌else◌,
}
use concurrency_library.Futures.Contract.{
  Outcome, Callback, Executor, Word, empty, value_is_set, hooked, Task, Race, neither, set_only,
  hook_only, set_first, hook_first, FutureValue, PromisePc, fresh, stored, swapping, testing,
  dropping, dropped, FuturePc, semi, future, hooking, hook_swapping, hook_testing, got,
  future_dropping, future_dropped,
}

abbrev pub word_of : Race → Word
word_of neither = empty
word_of (set_only r) = value_is_set
word_of (hook_only e c) = hooked c
word_of (set_first r e c) = hooked c
word_of (hook_first e c r) = value_is_set

-- The promise has not set the result.
abbrev pub Unset : Race → Type 0
Unset neither = Unit {0}
Unset (hook_only e c) = Unit {0}
Unset _ = ⊥

-- The future has set no callback.
abbrev pub Unhooked : Race → Type 0
Unhooked neither = Unit {0}
Unhooked (set_only r) = Unit {0}
Unhooked _ = ⊥

-- What the promise saw before its exchange.
abbrev pub Saw : Word → Race → Type 0
Saw old (set_only r) = old ≡ empty
Saw old (set_first r e c) = old ≡ empty
Saw old (hook_first e c r) = old ≡ hooked c
Saw old _ = ⊥

abbrev pub PromiseOk : PromisePc → Race → Type 0
PromiseOk fresh race = Unset race
PromiseOk (stored r) race = Unset race
PromiseOk (swapping r old) race = Unset race
PromiseOk (testing r old) race = Saw old race
PromiseOk dropping race = Unit {0}
PromiseOk dropped race = Unit {0}

-- What the future saw before its exchange.
abbrev pub Hooked : Executor → Callback → Word → Race → Type 0
Hooked e c old (set_first r e' c') = (old ≡ value_is_set) × (c ≡ c')
Hooked e c old (hook_only e' c') = old ≡ empty
Hooked e c old (hook_first e' c' r) = old ≡ empty
Hooked e c old _ = ⊥

abbrev pub Got : Option Outcome → Race → Type 0
Got x (set_only r) = x ≡ some r
Got x _ = ⊥

abbrev pub FutureOk : FuturePc → Race → Option Executor → Type 0
FutureOk semi race x = Unhooked race
FutureOk (future e) race x = Unhooked race × (x ≡ some e)
FutureOk (hooking e c) race x = Unhooked race × (x ≡ some e)
FutureOk (hook_swapping e c old) race x = Unhooked race × (x ≡ some e)
FutureOk (hook_testing e c old) race x = Hooked e c old race
FutureOk (got y) race x = Got y race
FutureOk future_dropping race x = Unit {0}
FutureOk future_dropped race x = Unit {0}

-- The executor that the future had when it set its callback is still there.
abbrev pub ExecutorOk : Race → Option Executor → Type 0
ExecutorOk (hook_only e c) x = x ≡ some e
ExecutorOk (set_first r e c) x = x ≡ some e
ExecutorOk (hook_first e c r) x = x ≡ some e
ExecutorOk _ x = Unit {0}

abbrev pub Stored : PromisePc → Option Outcome → Type 0
Stored (stored r) v = v ≡ some r
Stored (swapping r old) v = v ≡ some r
Stored _ v = Unit {0}

abbrev pub Untaken : FuturePc → Option Outcome → Outcome → Type 0
Untaken (got x) v r = Unit {0}
Untaken future_dropping v r = Unit {0}
Untaken future_dropped v r = Unit {0}
Untaken _ v r = v ≡ some r

abbrev pub promise_tests : PromisePc → Bool
promise_tests (testing r old) = true
promise_tests _ = false

abbrev pub future_tests : FuturePc → Bool
future_tests (hook_testing e c old) = true
future_tests _ = false

-- The value is there until one of the owners takes it.
abbrev pub ValueOk : Race → PromisePc → FuturePc → Option Outcome → Type 0
ValueOk neither p f v = Stored p v
ValueOk (hook_only e c) p f v = Stored p v
ValueOk (set_only r) p f v = Untaken f v r
ValueOk (set_first r e c) p f v = future_tests f ≡ true → v ≡ some r
ValueOk (hook_first e c r) p f v = promise_tests p ≡ true → v ≡ some r

abbrev pub task : Executor → Callback → Outcome → Task
task e c r = record { callback = hooked c; outcome = some r; executor = some e }

-- The tasks that must have been executed.
abbrev pub expected : Race → PromisePc → FuturePc → List Task
expected (set_first r e c) p f = if future_tests f then [] else task e c r ∷ []
expected (hook_first e c r) p f = if promise_tests p then [] else task e c r ∷ []
expected _ p f = []

abbrev pub owns_promise : PromisePc → ℕ
owns_promise dropped = 0
owns_promise _ = 1

abbrev pub owns_future : FuturePc → ℕ
owns_future future_dropped = 0
owns_future _ = 1

pub record Inv (s : FutureValue) (p : PromisePc) (f : FuturePc) : Type 0 where
  pub word : s.word ≡ word_of s.race
  pub promise_ok : PromiseOk p s.race
  pub future_ok : FutureOk f s.race s.executor
  pub executor_ok : ExecutorOk s.race s.executor
  pub value_ok : ValueOk s.race p f s.value
  pub executed : s.executed ≡ expected s.race p f
  pub owners : s.owners_count ≡ owns_promise p + owns_future f
  pub deleted : s.deletions ≡ (if s.owners_count == 0 then 1 else 0)
