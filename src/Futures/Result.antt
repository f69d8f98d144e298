-- ===== src/Futures/Result.antt =====
-- futures/result.hpp and what futures/callbacks and futures/api/execute.hpp do with results. The
-- functors are parameters: a call of one returns or throws.
pub mod Callbacks
mod Tests
use concurrency_library.Common.{
  Bool, true, false, not, ◌&&◌, ◌||◌, Option, none, some, List, [], ◌∷◌, if◌then◌else◌, ◌≡◌, ℕ,
}

-- An exception, by its address.
abbrev pub Exception : Type 0
Exception = ℕ

-- `exception_` is `none` when null. `value_` is the `ValueStorage`, which owns one value or none.
pub record Result {ℓ} (T : Type ℓ) : Type ℓ where
  pub value : Option T
  pub exception : Option Exception

-- How a call ends; a fault goes through a null pointer.
pub data Call {ℓ} (T : Type ℓ) : Type ℓ where
  returned : T → Call T
  thrown : Exception → Call T
  fault : Call T

abbrev pub is_some {ℓ} : {A : Type ℓ} → Option A → Bool
is_some none = false
is_some (some a) = true

module _ {ℓ} {T : Type ℓ} where
  abbrev pub fresh : Result T
  fresh = record { value = none; exception = none }

  abbrev pub has_value : Result T → Bool
  has_value r = is_some r.value

  abbrev pub has_exception : Result T → Bool
  has_exception r = is_some r.exception

  -- Assigning through the owned pointer or making a new one both leave the new value.
  abbrev pub set_value : Result T → T → Result T
  set_value r t = record r { value = some t }

  abbrev pub set_exception : Result T → Option Exception → Result T
  set_exception r e = record r { exception = e }

  abbrev pub get_exception : Result T → Option Exception
  get_exception r = r.exception

  abbrev get_value : Option T → Call T
  get_value none = fault
  get_value (some t) = returned t

  -- `ValueOrThrow`: how the call ends. The value is moved away, so the result is not used again.
  unfoldable pub value_or_throw : Result T → Call T
  value_or_throw r = go r.exception
    where
      go : Option Exception → Call T
      go (some e) = thrown e
      go none = get_value r.value

  -- `HasValue() xor HasException()`
  abbrev pub ready : Result T → Bool
  ready r = if has_value r then not (has_exception r) else has_exception r

-- `try { res.SetValue(call) } catch (...) { res.SetException(std::current_exception()) }` on a new
-- result; `none` is a fault.
unfoldable pub try_set {ℓ} : {T : Type ℓ} → Call T → Option (Result T)
try_set (returned t) = some (set_value fresh t)
try_set (thrown e) = some (set_exception fresh (some e))
try_set fault = none

-- Evaluating an argument and then calling the functor with it.
unfoldable pub call_with {ℓ κ} : {T : Type ℓ} {U : Type κ} → Call T → (T → Call U) → Call U
call_with (returned t) f = f t
call_with (thrown e) f = thrown e
call_with fault f = fault

-- What `ThenCallback::Invoke` sets the promise to.
unfoldable pub then_invoke {ℓ κ} :
    {T : Type ℓ} {U : Type κ} → (T → Call U) → Result T → Option (Result U)
unfolding try_set call_with value_or_throw
then_invoke f r = try_set (call_with (value_or_throw r) f)

-- What `RecoverCallback::Invoke` sets the promise to: the functor gets the exception of the new
-- result `res`, not that of `result`.
unfoldable pub recover_invoke {ℓ} :
    {T : Type ℓ} → (Option Exception → Call T) → Result T → Option (Result T)
unfolding try_set
recover_invoke {T} f r =
    let res : Result T = fresh in
    if not (has_exception r) then some r else try_set (f (get_exception res))

-- What the task of `Execute` sets the promise to.
unfoldable pub execute_invoke {ℓ} : {T : Type ℓ} → (Unit {0} → Call T) → Option (Result T)
unfolding try_set
execute_invoke f = try_set (f tt)
