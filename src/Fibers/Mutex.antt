-- ===== src/Fibers/Mutex.antt =====
-- fibers/sync/mutex.hpp and its awaiter in fibers/awaiters.hpp: the mutex of the fibers. Fibers are
-- interleaved; what one does between taking and releasing the spinlock is a step, and so is the
-- release where it comes later. The spinlock is free or held by one fiber. `Guard::Unlock` of
-- detail/spinlock.hpp, which `AwaitSuspend` calls on the thread that suspended the fiber, releases the
-- spinlock and sets `released_` after that; `~Guard` of the fiber that was resumed tests `released_`. If
-- it comes too early it releases the spinlock a second time. The steps say that this has happened,
-- and not what it does.
pub mod Invariant
pub mod Kept
pub mod Safety
mod Tests
use concurrency_library.Common.{
  ℕ, ◌<◌, ◌≡◌, Bool, true, false, Option, none, some, List, [], ◌∷◌, ◌++◌, update,
}

-- Where a fiber stands.
pub data Pc : Type 0 where
  outside : Pc
  locking : Pc  -- `Lock`, before it has the spinlock
  testing : Pc  -- `Lock`, with the spinlock, before the test of `closed_`
  suspending : Pc  -- its awaiter is in the queue, and it still has the spinlock
  suspended : Pc  -- `AwaitSuspend` has released the spinlock
  scheduled : Pc  -- its awaiter was resumed, before `~Guard`
  undefined : Pc  -- its `~Guard` has released the spinlock a second time
  owner : Pc  -- `Lock` has returned
  unlocking : Pc  -- `Unlock`, before it has the spinlock
  releasing : Pc  -- `Unlock`, with the spinlock

pub record Mutex : Type 0 where
  pub spinlock : Option ℕ  -- the fiber that holds it
  pub closed : Bool
  pub queue : List ℕ  -- the fibers of the awaiters, oldest first
  pub arrived : List ℕ  -- the fibers that found the mutex open or queued, in order
  pub granted : List ℕ  -- the fibers that got the mutex, in order
  pub unlocking_guard : ℕ → Bool  -- the guards that were released and are not yet marked so
  pub released : ℕ → Bool  -- `released_` of the guards in which fibers wait
  pub twice : Bool  -- some guard was released twice

-- One step of fiber `i` that concerns no other fiber.
pub data Move (s : Mutex) (i : ℕ) : Pc → Mutex → Pc → Type 0 where
  call_lock : Move s i outside s locking
  lock_spin : s.spinlock ≡ none → Move s i locking (record s { spinlock = some i }) testing
  close :
      s.closed ≡ false
      → Move s i testing
          (record s {
            spinlock = none;
            closed = true;
            arrived = s.arrived ++ i ∷ [];
            granted = s.granted ++ i ∷ [];
          })
          owner
  enqueue :
      s.closed ≡ true
      → Move s i testing
          (record s {
            queue = s.queue ++ i ∷ [];
            arrived = s.arrived ++ i ∷ [];
            released = update s.released i false;
          })
          suspending
  suspend :
      Move s i suspending
        (record s { spinlock = none; unlocking_guard = update s.unlocking_guard i true })
        suspended
  wake : s.released i ≡ true → Move s i scheduled s owner
  wake_early : s.released i ≡ false → Move s i scheduled (record s { twice = true }) undefined
  call_unlock : Move s i owner s unlocking
  unlock_spin : s.spinlock ≡ none → Move s i unlocking (record s { spinlock = some i }) releasing
  open_up : s.queue ≡ [] → Move s i releasing (record s { spinlock = none; closed = false }) outside

pub record System : Type 0 where
  pub mutex : Mutex
  pub pc : ℕ → Pc

abbrev pub init : System
init = record {
  mutex = record {
    spinlock = none;
    closed = false;
    queue = [];
    arrived = [];
    granted = [];
    unlocking_guard = λ _. false;
    released = λ _. false;
    twice = false;
  };
  pc = λ _. outside;
}

-- One of `n` fibers moves.
pub data Step (n : ℕ) (s : System) : System → Type 0 where
  step :
      (i : ℕ) {t : Mutex} {p : Pc}
      → i < n
      → Move s.mutex i (s.pc i) t p
      → Step n s (record { mutex = t; pc = update s.pc i p })
  -- The end of `Guard::Unlock`, on the thread that suspended fiber `i`.
  mark :
      (i : ℕ)
      → s.mutex.unlocking_guard i ≡ true
      → Step n s (record s {
        mutex = record s.mutex {
          unlocking_guard = update s.mutex.unlocking_guard i false;
          released = update s.mutex.released i true;
        };
      })
  -- `Unlock` resumes the oldest awaiter, wherever its fiber stands, and leaves `closed_` as it is.
  hand_over :
      (i j : ℕ) {rest : List ℕ}
      → i < n
      → s.pc i ≡ releasing
      → s.mutex.queue ≡ j ∷ rest
      → Step n s (record {
        mutex = record s.mutex {
          spinlock = none;
          queue = rest;
          granted = s.mutex.granted ++ j ∷ [];
        };
        pc = update (update s.pc i outside) j scheduled;
      })

pub data Reach (n : ℕ) : System → Type 0 where
  here : Reach n init
  next : {s t : System} → Reach n s → Step n s t → Reach n t
