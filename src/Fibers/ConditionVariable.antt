-- ===== src/Fibers/ConditionVariable.antt =====
-- fibers/sync/condition_variable.hpp and the `MutexAwaiter` of fibers/awaiters.hpp: the condition
-- variable of the fibers, with the mutex that `Wait` is given. Fibers are interleaved; the mutex and
-- the spinlock are each free or held by one fiber. As in Fibers/Mutex, `Guard::Unlock` releases the
-- spinlock and sets `released_` after that, and a `~Guard` that comes in between releases it twice, which
-- the steps tell.
pub mod Kept
pub mod NotifyAll
pub mod Safety
mod Tests
use concurrency_library.Common.{
  ℕ, ◌<◌, ◌≡◌, Bool, true, false, Option, none, some, List, [], ◌∷◌, ◌++◌, update,
}

-- Where a fiber stands. It may hold the mutex wherever it is outside of `Wait`.
pub data Pc : Type 0 where
  outside : Pc
  unlocked : Pc  -- `Wait`, after `mutex.unlock`
  entering : Pc  -- `Wait`, with the spinlock
  suspending : Pc  -- its awaiter is in the queue, and it still has the spinlock
  suspended : Pc  -- `AwaitSuspend` has released the spinlock
  scheduled : Pc  -- its awaiter was resumed, before `mutex.lock`
  locked : Pc  -- after `mutex.lock`, before `~Guard`
  undefined : Pc  -- its `~Guard` has released the spinlock a second time
  calling_one : Pc  -- `NotifyOne`, before it has the spinlock
  calling_all : Pc  -- `NotifyAll`, before it has the spinlock
  notifying_one : Pc  -- `NotifyOne`, with the spinlock
  notifying_all : Pc  -- the loop of `NotifyAll`, with the spinlock
  leaving : Pc  -- before the guard releases the spinlock

pub record ConditionVariable : Type 0 where
  pub spinlock : Option ℕ  -- the fiber that holds it
  pub mutex : Option ℕ  -- the fiber that holds it
  pub queue : List ℕ  -- the fibers of the awaiters, oldest first
  pub arrived : List ℕ  -- the fibers whose awaiters were pushed, in order
  pub notified : List ℕ  -- the fibers whose awaiters were resumed, in order
  pub unlocking_guard : ℕ → Bool  -- the guards that were released and are not yet marked so
  pub released : ℕ → Bool  -- `released_` of the guards of `Wait`
  pub twice : Bool  -- some guard was released twice

-- One step of fiber `i` that concerns no other fiber.
pub data Move (s : ConditionVariable) (i : ℕ) : Pc → ConditionVariable → Pc → Type 0 where
  lock_mutex : s.mutex ≡ none → Move s i outside (record s { mutex = some i }) outside
  unlock_mutex : s.mutex ≡ some i → Move s i outside (record s { mutex = none }) outside
  call_wait : s.mutex ≡ some i → Move s i outside (record s { mutex = none }) unlocked
  wait_spin :
      s.spinlock ≡ none
      → Move s i unlocked
          (record s { spinlock = some i; released = update s.released i false })
          entering
  push :
      Move s i entering
        (record s { queue = s.queue ++ i ∷ []; arrived = s.arrived ++ i ∷ [] })
        suspending
  suspend :
      Move s i suspending
        (record s { spinlock = none; unlocking_guard = update s.unlocking_guard i true })
        suspended
  relock : s.mutex ≡ none → Move s i scheduled (record s { mutex = some i }) locked
  finish : s.released i ≡ true → Move s i locked s outside
  finish_early : s.released i ≡ false → Move s i locked (record s { twice = true }) undefined
  call_notify_one : Move s i outside s calling_one
  one_spin : s.spinlock ≡ none → Move s i calling_one (record s { spinlock = some i }) notifying_one
  nobody : s.queue ≡ [] → Move s i notifying_one s leaving
  call_notify_all : Move s i outside s calling_all
  all_spin : s.spinlock ≡ none → Move s i calling_all (record s { spinlock = some i }) notifying_all
  everybody : s.queue ≡ [] → Move s i notifying_all s leaving
  leave : Move s i leaving (record s { spinlock = none }) outside

-- Where a fiber that notifies stands after it has resumed an awaiter.
pub data Notifies : Pc → Pc → Type 0 where
  one : Notifies notifying_one leaving
  again : Notifies notifying_all notifying_all

pub record System : Type 0 where
  pub condition : ConditionVariable
  pub pc : ℕ → Pc

abbrev pub init : System
init = record {
  condition = record {
    spinlock = none;
    mutex = none;
    queue = [];
    arrived = [];
    notified = [];
    unlocking_guard = λ _. false;
    released = λ _. false;
    twice = false;
  };
  pc = λ _. outside;
}

-- One of `n` fibers moves.
pub data Step (n : ℕ) (s : System) : System → Type 0 where
  step :
      (i : ℕ) {t : ConditionVariable} {p : Pc}
      → i < n
      → Move s.condition i (s.pc i) t p
      → Step n s (record { condition = t; pc = update s.pc i p })
  -- The end of `Guard::Unlock`, on the thread that suspended fiber `i`.
  mark :
      (i : ℕ)
      → s.condition.unlocking_guard i ≡ true
      → Step n s (record s {
        condition = record s.condition {
          unlocking_guard = update s.condition.unlocking_guard i false;
          released = update s.condition.released i true;
        };
      })
  -- The oldest awaiter is resumed, wherever its fiber stands.
  resume :
      (i j : ℕ) {rest : List ℕ} {p : Pc}
      → i < n
      → Notifies (s.pc i) p
      → s.condition.queue ≡ j ∷ rest
      → Step n s (record {
        condition = record s.condition { queue = rest; notified = s.condition.notified ++ j ∷ [] };
        pc = update (update s.pc i p) j scheduled;
      })

pub data Reach (n : ℕ) : System → Type 0 where
  here : Reach n init
  next : {s t : System} → Reach n s → Step n s t → Reach n t
