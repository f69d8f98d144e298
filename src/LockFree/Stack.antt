-- ===== src/LockFree/Stack.antt =====
-- lockfree/stack.hpp: the lock-free stack. Threads are interleaved; a step is one access to memory
-- that the threads share, with the local computation that follows it.
pub mod Roles
pub mod Invariant
pub mod Accounts
pub mod Turn
pub mod Crew
pub mod Pushing
pub mod Viewing
pub mod Counting
pub mod Leaving
pub mod Kept
pub mod Safety
pub mod Destroy
mod Tests
use concurrency_library.Common.{
  ℕ, ◌<◌, ◌^◌, ◌≡◌, ◌≢◌, Bool, true, false, not, ◌&&◌, ◌||◌, Option, none, some, List, [], ◌∷◌,
  update, ◌==◌, if◌then◌else◌, add64, sub64, dec64,
}
use concurrency_library.LockFree.CountedPtr.{make, get_pointer, get_count, increase_count}

pub record Node : Type 0 where
  pub value : ℕ
  pub internal_count : ℕ  -- `long long`, as its 64-bit word
  pub next : ℕ  -- a `CountedPtr`

-- What the stack did, each entry at the step at which it takes effect.
pub data Event : Type 0 where
  pushed : ℕ → Event
  popped : ℕ → Event
  found_empty : Event

-- Where a thread stands.
pub data Pc : Type 0 where
  idle : Pc
  making : ℕ → Pc  -- `Push`, before it loads `head_` into the new node
  pushing : ℕ → Pc  -- `Push`, before its exchange of `head_`
  increasing : ℕ → Pc  -- `IncreaseExternalCount`, with its copy of `head_`
  reading : ℕ → Pc  -- `TryPop`, before it reads `old_head->next`
  swapping : ℕ → ℕ → Pc  -- before its exchange of `head_` with `next`
  took : ℕ → ℕ → Pc  -- the exchange succeeded; the value that was at the top then
  counting : ℕ → ℕ → ℕ → Pc  -- `result` is read; before `fetch_add`
  leaving : ℕ → ℕ → Pc  -- the exchange failed; before `fetch_sub`, with the new copy of `head_`
  deleting : ℕ → Pc  -- before `delete`, then `TryPop` returns
  dropping : ℕ → ℕ → Pc  -- before `delete`, then the loop goes on

pub record Stack : Type 0 where
  pub head : ℕ  -- a `CountedPtr`
  pub nodes : ℕ → Node
  pub allocated : ℕ → Bool
  pub events : List Event  -- the last first
  pub wrapped : Bool  -- the counter of a node has passed its largest value

-- `(long long)old_head.GetCount() - 2`
abbrev pub added : ℕ → ℕ
added old = sub64 (get_count old) 2

abbrev pub with_next : Stack → ℕ → ℕ → ℕ → Node
with_next s p w = update s.nodes p (record (s.nodes p) { next = w })

abbrev pub with_internal : Stack → ℕ → ℕ → ℕ → Node
with_internal s p c = update s.nodes p (record (s.nodes p) { internal_count = c })

abbrev pub overflows : ℕ → Bool
overflows old = not (get_pointer old == 0) && (get_count old == 65535)

-- One step of a thread.
pub data Move (s : Stack) : Pc → Stack → Pc → Type 0 where
  -- `new` gives memory that is not in use, at an address that is not null and has 48 bits.
  allocate :
      (v p : ℕ)
      → p ≢ 0
      → p < 2 ^ 48
      → s.allocated p ≡ false
      → Move s idle
          (record s {
            nodes = update s.nodes p (record { value = v; internal_count = 0; next = 0 });
            allocated = update s.allocated p true;
          })
          (making p)
  load_next : {p : ℕ} → Move s (making p) (record s { nodes = with_next s p s.head }) (pushing p)
  push_swap :
      {p : ℕ}
      → s.head ≡ (s.nodes p).next
      → Move s
          (pushing p)
          (record s { head = make p 1; events = pushed (s.nodes p).value ∷ s.events })
          idle
  -- The weak exchange may fail for no reason.
  push_retry : {p : ℕ} → Move s (pushing p) (record s { nodes = with_next s p s.head }) (pushing p)
  load_head : Move s idle s (increasing s.head)
  view :
      {old : ℕ}
      → s.head ≡ old
      → get_pointer old ≢ 0
      → Move s
          (increasing old)
          (record s { head = increase_count old; wrapped = s.wrapped || overflows old })
          (reading (increase_count old))
  find_empty :
      {old : ℕ}
      → s.head ≡ old
      → get_pointer old ≡ 0
      → Move s
          (increasing old)
          (record s { head = increase_count old; events = found_empty ∷ s.events })
          idle
  reload : {old : ℕ} → s.head ≢ old → Move s (increasing old) s (increasing s.head)
  read_next : {old : ℕ} → Move s (reading old) s (swapping old (s.nodes (get_pointer old)).next)
  pop_swap :
      {old w : ℕ}
      → s.head ≡ old
      → Move s
          (swapping old w)
          (record s { head = w; events = popped (s.nodes (get_pointer old)).value ∷ s.events })
          (took old (s.nodes (get_pointer old)).value)
  pop_fail :
      {old w : ℕ} → s.head ≢ old → Move s (swapping old w) s (leaving (get_pointer old) s.head)
  take_value :
      {old owed : ℕ}
      → Move s (took old owed) s (counting old owed (s.nodes (get_pointer old)).value)
  count_last :
      {old owed result : ℕ}
      → (s.nodes (get_pointer old)).internal_count ≡ sub64 0 (added old)
      → Move s
          (counting old owed result)
          (record s {
            nodes =
                with_internal s
                  (get_pointer old)
                  (add64 (s.nodes (get_pointer old)).internal_count (added old));
          })
          (deleting (get_pointer old))
  count_more :
      {old owed result : ℕ}
      → (s.nodes (get_pointer old)).internal_count ≢ sub64 0 (added old)
      → Move s
          (counting old owed result)
          (record s {
            nodes =
                with_internal s
                  (get_pointer old)
                  (add64 (s.nodes (get_pointer old)).internal_count (added old));
          })
          idle
  leave_last :
      {p old : ℕ}
      → (s.nodes p).internal_count ≡ 1
      → Move s
          (leaving p old)
          (record s { nodes = with_internal s p (dec64 (s.nodes p).internal_count) })
          (dropping p old)
  leave_more :
      {p old : ℕ}
      → (s.nodes p).internal_count ≢ 1
      → Move s
          (leaving p old)
          (record s { nodes = with_internal s p (dec64 (s.nodes p).internal_count) })
          (increasing old)
  delete : {p : ℕ} → Move s (deleting p) (record s { allocated = update s.allocated p false }) idle
  drop :
      {p old : ℕ}
      → Move s
          (dropping p old)
          (record s { allocated = update s.allocated p false })
          (increasing old)

pub record System : Type 0 where
  pub stack : Stack
  pub pc : ℕ → Pc

abbrev pub init : System
init = record {
  stack = record {
    head = 0;
    nodes = λ _. record { value = 0; internal_count = 0; next = 0 };
    allocated = λ _. false;
    events = [];
    wrapped = false;
  };
  pc = λ _. idle;
}

-- One of `n` threads moves.
pub data Step (n : ℕ) (s : System) : System → Type 0 where
  step :
      (i : ℕ) {t : Stack} {p : Pc}
      → i < n
      → Move s.stack (s.pc i) t p
      → Step n s (record { stack = t; pc = update s.pc i p })

pub data Reach (n : ℕ) : System → Type 0 where
  here : Reach n init
  next_step : {s t : System} → Reach n s → Step n s t → Reach n t

-- The stack as a list, and what each event does to it.
unfoldable pub run_event : Event → List ℕ → Option (List ℕ)
run_event (pushed v) xs = some (v ∷ xs)
run_event (popped v) [] = none
run_event (popped v) (x ∷ xs) = if x == v then some xs else none
run_event found_empty [] = some []
run_event found_empty (x ∷ xs) = none

infixl 5 ◌>>=◌
abbrev ◌>>=◌ : {A B : Type 0} → Option A → (A → Option B) → Option B
none >>= k = none
some a >>= k = k a

unfoldable pub replay : List Event → Option (List ℕ)
replay [] = some []
replay (e ∷ es) = replay es >>= run_event e
