-- ===== src/Detail/SpinLock.antt =====
-- detail/spinlock.hpp: the queue spinlock. Threads are interleaved, one access of shared memory a
-- step. A thread has one guard, which goes by the thread's number and is made anew by each acquire.
pub mod Invariant
pub mod Kept
pub mod Release
pub mod Steps
pub mod Handing
pub mod Safety
mod Tests
use concurrency_library.Common.{
  ℕ, ◌+◌, ◌<◌, ◌≡◌, ◌≢◌, Bool, true, false, Option, none, some, update, ◌==◌, if◌then◌else◌,
}

-- Where a thread stands.
pub data Pc : Type 0 where
  outside : Pc
  swapping : Option ℕ → Pc  -- `Acquire`, with its copy of `tail_`, before the exchange
  linking : ℕ → Pc  -- before `old_tail_->next_.store(guard)`
  waiting : Pc  -- in the loop on `owner_`
  holding : Pc  -- `Acquire` has returned
  releasing : Pc  -- `Release`, before the exchange
  handing : Pc  -- in the loop on `next_`
  waking : ℕ → Pc  -- before `next->owner_.test_and_set`

pub record SpinLock : Type 0 where
  pub tail : Option ℕ
  pub next : ℕ → Option ℕ  -- the field `next_` of each guard
  pub owner : ℕ → Bool  -- the field `owner_` of each guard
  pub entered : ℕ  -- how many guards were put at the tail so far
  pub released : ℕ  -- how many guards were released so far
  pub ticket : ℕ → ℕ  -- how many guards were put at the tail before this one

-- `i` puts its guard at the tail.
abbrev pub enter : SpinLock → ℕ → SpinLock
enter s i = record s {
  tail = some i;
  entered = s.entered + 1;
  ticket = update s.ticket i s.entered;
}

-- One step of thread `i`.
pub data Move (s : SpinLock) (i : ℕ) : Pc → SpinLock → Pc → Type 0 where
  -- The guard is made, and `tail_` is loaded.
  load_tail :
      Move s i outside
        (record s { next = update s.next i none; owner = update s.owner i false })
        (swapping s.tail)
  swap_first : s.tail ≡ none → Move s i (swapping none) (enter s i) holding
  swap_behind : {j : ℕ} → s.tail ≡ some j → Move s i (swapping (some j)) (enter s i) (linking j)
  -- The weak exchange may fail for no reason.
  swap_retry : {old : Option ℕ} → Move s i (swapping old) s (swapping s.tail)
  link : {j : ℕ} → Move s i (linking j) (record s { next = update s.next j (some i) }) waiting
  see_owner : s.owner i ≡ true → Move s i waiting s holding
  call_release : Move s i holding s releasing
  release_last :
      s.tail ≡ some i
      → Move s i releasing (record s { tail = none; released = s.released + 1 }) outside
  release_not_last : s.tail ≢ some i → Move s i releasing s handing
  see_next : {k : ℕ} → s.next i ≡ some k → Move s i handing s (waking k)
  wake :
      {k : ℕ}
      → Move s i
          (waking k)
          (record s { owner = update s.owner k true; released = s.released + 1 })
          outside

pub record System : Type 0 where
  pub lock : SpinLock
  pub pc : ℕ → Pc

abbrev pub init : System
init = record {
  lock = record {
    tail = none;
    next = λ _. none;
    owner = λ _. false;
    entered = 0;
    released = 0;
    ticket = λ _. 0;
  };
  pc = λ _. outside;
}

-- Any thread moves.
pub data Step (s : System) : System → Type 0 where
  step :
      (i : ℕ) {t : SpinLock} {p : Pc}
      → Move s.lock i (s.pc i) t p
      → Step s (record { lock = t; pc = update s.pc i p })

pub data Reach : System → Type 0 where
  here : Reach init
  next_step : {s t : System} → Reach s → Step s t → Reach t
