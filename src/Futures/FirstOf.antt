-- ===== src/Futures/FirstOf.antt =====
-- futures/api/first_of.hpp: the callbacks that `FirstOf` subscribes to its futures, interleaved, one
-- access of the shared promise at a time. Future `i` of the `n` completes with the result `outcome i`.
pub mod Winner
mod Tests
use concurrency_library.Common.{
  ℕ, ◌+◌, ◌-◌, ◌<◌, ◌≡◌, ◌≢◌, ◌==◌, if◌then◌else◌, List, [], ◌∷◌, ◌++◌, Option, none, some, update,
}

-- A result, by a number.
abbrev pub Outcome : Type 0
Outcome = ℕ

-- Where a callback stands.
pub data Pc : Type 0 where
  waiting : Pc  -- not called yet
  loaded : Pc  -- it has `local_promise`
  counted : ℕ → Pc  -- its `fetch_sub` gave this count
  undefined : ℕ → Pc  -- it has read `futures_count` of a deleted record
  winner : Pc  -- "We are first"
  last_one : Pc  -- "We are last"
  done : Pc

-- `FirstOfPromise`, with what the promise was set to, how often the promise and the record itself
-- were deleted, and which callback was the first to count down.
pub record FirstOfPromise : Type 0 where
  pub count : ℕ
  pub sets : List Outcome
  pub promise_deletions : ℕ
  pub deletions : ℕ
  pub first : Option ℕ

module _ (n : ℕ) (outcome : ℕ → Outcome) where
  -- One step of callback `i`.
  pub data Move (s : FirstOfPromise) (i : ℕ) : Pc → FirstOfPromise → Pc → Type 0 where
    load : Move s i waiting s loaded
    fetch_sub :
        Move s i loaded
          (record s { count = s.count - 1; first = if s.count == n then some i else s.first })
          (counted s.count)
    -- `futures_count` is read from the record, which may be deleted by now.
    use_after_free : {c : ℕ} → s.deletions ≢ 0 → Move s i (counted c) s (undefined c)
    is_first : {c : ℕ} → s.deletions ≡ 0 → c ≡ n → Move s i (counted c) s winner
    is_last : {c : ℕ} → s.deletions ≡ 0 → c ≢ n → c ≡ 1 → Move s i (counted c) s last_one
    is_other : {c : ℕ} → s.deletions ≡ 0 → c ≢ n → c ≢ 1 → Move s i (counted c) s done
    set :
        Move s i winner
          (record s {
            sets = s.sets ++ outcome i ∷ [];
            promise_deletions = s.promise_deletions + 1;
          })
          done
    delete_record : Move s i last_one (record s { deletions = s.deletions + 1 }) done

  pub record System : Type 0 where
    pub shared : FirstOfPromise
    pub pc : ℕ → Pc

  abbrev pub init : System
  init = record {
    shared = record { count = n; sets = []; promise_deletions = 0; deletions = 0; first = none };
    pc = λ _. waiting;
  }

  pub data Step (s : System) : System → Type 0 where
    step :
        (i : ℕ) {t : FirstOfPromise} {p : Pc}
        → i < n
        → Move s.shared i (s.pc i) t p
        → Step s (record s { shared = t; pc = update s.pc i p })

  pub data Reach : System → Type 0 where
    here : Reach init
    next : {s t : System} → Reach s → Step s t → Reach t
