-- ===== src/Fibers/WaitGroup.antt =====
-- fibers/sync/waitgroup.hpp and the `WaitGroupAwaiter` of fibers/awaiters.hpp: the wait group of the
-- fibers. Fibers are interleaved, one access of shared memory a step. An awaiter goes by the number
-- of its fiber; the chain from `head_` on is a list. A `ResumeAwaiters` that gets two or more awaiters
-- does not end (`Loop`), and what becomes of the fibers then is not followed further.
pub mod Invariant
pub mod Kept
pub mod Loop
pub mod Safety
mod Tests
use concurrency_library.Common.{
  ℕ, ◌<◌, ◌≡◌, ◌≢◌, Bool, true, false, Option, none, some, List, [], ◌∷◌, update, add64, dec64,
  ◌==◌, if◌then◌else◌,
}

-- Where a fiber stands.
pub data Pc : Type 0 where
  outside : Pc
  pushing : Option ℕ → Pc  -- `PushInStack`, with its copy of `head_`
  suspending : Pc  -- before `AwaitSuspend`
  suspended : Pc
  scheduled : Pc
  grabbing : Pc  -- `Done` or `AllDone`, before the exchange of `head_`
  resuming : List ℕ → Pc  -- the awaiters of the queue that are still to be resumed
  looping : Pc  -- in `ResumeAwaiters` for ever

pub record WaitGroup : Type 0 where
  pub count : ℕ  -- `long long`, as its 64-bit word
  pub head : List ℕ  -- the awaiters from `head_` on
  pub resumed : ℕ → Bool  -- the flag of each awaiter
  pub looped : Bool  -- a fiber has taken a stack of two or more awaiters

abbrev pub top : List ℕ → Option ℕ
top [] = none
top (i ∷ is) = some i

-- One step of fiber `i` that concerns no other fiber.
pub data Move (s : WaitGroup) (i : ℕ) : Pc → WaitGroup → Pc → Type 0 where
  add : (k : ℕ) → Move s i outside (record s { count = add64 s.count k }) outside
  done_last : s.count ≡ 1 → Move s i outside (record s { count = dec64 s.count }) grabbing
  done_more : s.count ≢ 1 → Move s i outside (record s { count = dec64 s.count }) outside
  all_done : Move s i outside (record s { count = 0 }) grabbing
  wait_no : s.count ≡ 0 → Move s i outside s outside
  -- The awaiter and its flag are made, and `head_` is loaded.
  wait_yes :
      s.count ≢ 0
      → Move s i outside (record s { resumed = update s.resumed i false }) (pushing (top s.head))
  push :
      {old : Option ℕ}
      → top s.head ≡ old
      → Move s i (pushing old) (record s { head = i ∷ s.head }) suspending
  push_retry : {old : Option ℕ} → top s.head ≢ old → Move s i (pushing old) s (pushing (top s.head))
  -- `AwaitSuspend` schedules the fiber if `Resume` came first.
  suspend_first :
      s.resumed i ≡ false
      → Move s i suspending (record s { resumed = update s.resumed i true }) suspended
  suspend_second : s.resumed i ≡ true → Move s i suspending s scheduled
  run : Move s i scheduled s outside
  grab_none : s.head ≡ [] → Move s i grabbing s outside
  grab_one :
      {j : ℕ} → s.head ≡ j ∷ [] → Move s i grabbing (record s { head = [] }) (resuming (j ∷ []))
  grab_more :
      {j k : ℕ} {js : List ℕ}
      → s.head ≡ j ∷ k ∷ js
      → Move s i grabbing (record s { head = []; looped = true }) looping
  finish : Move s i (resuming []) s outside
  -- `Resume` comes before `AwaitSuspend` and leaves the rest to it.
  resume_first :
      {j : ℕ} {js : List ℕ}
      → s.resumed j ≡ false
      → Move s i (resuming (j ∷ js)) (record s { resumed = update s.resumed j true }) (resuming js)

pub record System : Type 0 where
  pub group : WaitGroup
  pub pc : ℕ → Pc

abbrev pub init : System
init = record {
  group = record { count = 0; head = []; resumed = λ _. false; looped = false };
  pc = λ _. outside;
}

-- One of `n` fibers moves.
pub data Step (n : ℕ) (s : System) : System → Type 0 where
  step :
      (i : ℕ) {t : WaitGroup} {p : Pc}
      → i < n
      → Move s.group i (s.pc i) t p
      → Step n s (record { group = t; pc = update s.pc i p })
  -- `Resume` comes second and schedules the fiber, wherever it stands.
  resume_second :
      (i j : ℕ) {js : List ℕ}
      → i < n
      → s.pc i ≡ resuming (j ∷ js)
      → s.group.resumed j ≡ true
      → Step n s (record { group = s.group; pc = update (update s.pc i (resuming js)) j scheduled })

pub data Reach (n : ℕ) : System → Type 0 where
  here : Reach n init
  next : {s t : System} → Reach n s → Step n s t → Reach n t
