-- ===== src/Futures/All.antt =====
-- futures/api/all.hpp: the callbacks that `All` subscribes to its futures, interleaved, one access of
-- the shared promise at a time. Future `i` of the `n` completes with the result `outcome i`.
pub mod Complete
pub mod Answer
mod Tests
use concurrency_library.Common.{
  ℕ, zero, suc, ◌+◌, ◌-◌, ◌<◌, ◌≡◌, ◌≢◌, ◌==◌, List, [], ◌∷◌, ◌++◌, Option, none, some, update,
  if◌then◌else◌,
}
use concurrency_library.Futures.Result.{
  Result, Call, returned, thrown, fault, fresh, value_or_throw, try_set, call_with,
}

-- A value, by a number.
abbrev pub Value : Type 0
Value = ℕ

-- Where a callback stands.
pub data Pc : Type 0 where
  waiting : Pc  -- not called yet
  stored : Pc  -- its result is in `promise_value`
  last_one : Pc  -- its `fetch_sub` gave 1
  done : Pc

-- `VectorPromise`, with what its promise was set to and how often it was deleted.
pub record VectorPromise : Type 0 where
  pub promise_value : ℕ → Result Value
  pub count : ℕ
  pub sets : List (Option (Result (List Value)))  -- `none` is a fault
  pub deletions : ℕ

-- The loop over `promise_value`, from element `i` on with `left` to go.
unfoldable pub collect : (ℕ → Result Value) → (i left : ℕ) → Call (List Value)
unfolding call_with
collect values i zero = returned []
collect values i (suc left) =
    let rest = collect values (i + 1) left in
    call_with (value_or_throw (values i)) (λ v. call_with rest (λ vs. returned (v ∷ vs)))

module _ (n : ℕ) (outcome : ℕ → Result Value) where
  -- One step of callback `i`.
  pub data Move (s : VectorPromise) (i : ℕ) : Pc → VectorPromise → Pc → Type 0 where
    store :
        Move s i waiting (record s { promise_value = update s.promise_value i (outcome i) }) stored
    count_down : s.count ≢ 1 → Move s i stored (record s { count = s.count - 1 }) done
    count_last : s.count ≡ 1 → Move s i stored (record s { count = s.count - 1 }) last_one
    complete :
        Move s i last_one
          (record s {
            sets = s.sets ++ try_set (collect s.promise_value 0 n) ∷ [];
            deletions = s.deletions + 1;
          })
          done

  pub record System : Type 0 where
    pub shared : VectorPromise
    pub pc : ℕ → Pc

  abbrev pub init : System
  init = record {
    shared = record { promise_value = λ _. fresh; count = n; sets = []; deletions = 0 };
    pc = λ _. waiting;
  }

  pub data Step (s : System) : System → Type 0 where
    step :
        (i : ℕ) {t : VectorPromise} {p : Pc}
        → i < n
        → Move s.shared i (s.pc i) t p
        → Step s (record s { shared = t; pc = update s.pc i p })

  pub data Reach : System → Type 0 where
    here : Reach init
    next : {s t : System} → Reach s → Step s t → Reach t
