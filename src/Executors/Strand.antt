-- ===== src/Executors/Strand.antt =====
-- executors/strand.hpp: an executor that runs its routines one at a time, over another executor.
-- Threads are interleaved, one atomic operation at a time.
pub mod Invariant
pub mod Safety
mod Tests
use concurrency_library.Common.{
  ℕ, suc, ◌+◌, ◌-◌, ◌<◌, ◌≡◌, ◌≢◌, Bool, true, false, List, [], ◌∷◌, ◌++◌, update, ◌^◌,
  if◌then◌else◌,
}

-- A routine, by its address.
abbrev pub Routine : Type 0
Routine = ℕ

abbrev pub null : ℕ
null = 0

-- `kClosed`
abbrev pub closed_ptr : ℕ
closed_ptr = 2 ^ 63

-- `stack_head_` with the routines that it links, the newest first; behind the oldest stands null,
-- or `kClosed` if `closed`.
pub record Chain : Type 0 where
  pub routines : List Routine
  pub closed : Bool

-- The pointer that `stack_head_` holds.
abbrev pub head_ptr : List Routine → Bool → ℕ
head_ptr [] false = null
head_ptr [] true = closed_ptr
head_ptr (r ∷ rs) closed = r

-- The loop of `MakeQueue`: it moves every routine to a stack, and stops at null and at `kClosed`.
unfoldable pub make_queue : List Routine → List Routine → List Routine
make_queue [] stack = stack
make_queue (r ∷ rs) stack = make_queue rs (r ∷ stack)

-- Where a thread stands.
pub data Pc : Type 0 where
  idle : Pc
  pushing : (routine : Routine) (next : ℕ) → Pc  -- before the compare-exchange of `PushInStack`
  pushed : (result : ℕ) → Pc  -- before the test of `Execute`
  lock : Pc  -- start of `Lock`
  locking : (head : ℕ) → Pc  -- before the compare-exchange of `Lock`
  submitting : Pc  -- before `executor_->Execute(&batch_)`
  running : Pc  -- head of the loop of `TasksBatch::Run`
  unlocking : Pc  -- start of `Unlock`

pub record Strand : Type 0 where
  pub chain : Chain
  pub batch : List Routine  -- the stack of `batch_`, top first
  pub queued : ℕ  -- how often `batch_` waits in the executor below
  pub submitted : List Routine  -- every routine pushed so far, in the order of the pushes
  pub ran : List Routine  -- every routine run so far, in order

-- One step of a thread over the shared state.
pub data Move (s : Strand) : Pc → Strand → Pc → Type 0 where
  -- `Execute` of a routine: neither null nor `kClosed`, since it is the address of an object
  execute :
      (r : Routine)
      → r ≢ null
      → r ≢ closed_ptr
      → Move s idle s (pushing r (head_ptr s.chain.routines s.chain.closed))
  push_win :
      {r e : ℕ}
      → head_ptr s.chain.routines s.chain.closed ≡ e
      → Move s
          (pushing r e)
          (record s {
            chain = record { routines = r ∷ s.chain.routines; closed = s.chain.closed };
            submitted = s.submitted ++ r ∷ [];
          })
          (pushed e)
  push_lose :
      {r e : ℕ}
      → head_ptr s.chain.routines s.chain.closed ≢ e
      → Move s (pushing r e) s (pushing r (head_ptr s.chain.routines s.chain.closed))
  first : {e : ℕ} → e ≡ null → Move s (pushed e) s lock
  behind : {e : ℕ} → e ≢ null → Move s (pushed e) s idle
  lock_load : Move s lock s (locking (head_ptr s.chain.routines s.chain.closed))
  lock_win :
      {e : ℕ}
      → head_ptr s.chain.routines s.chain.closed ≡ e
      → Move s
          (locking e)
          (record s {
            chain = record { routines = []; closed = true };
            batch = make_queue s.chain.routines [];
          })
          submitting
  lock_lose :
      {e : ℕ}
      → head_ptr s.chain.routines s.chain.closed ≢ e
      → Move s (locking e) s (locking (head_ptr s.chain.routines s.chain.closed))
  submit : Move s submitting (record s { queued = s.queued + 1 }) idle
  -- the executor below calls `batch_.Run()`
  start : 0 < s.queued → Move s idle (record s { queued = s.queued - 1 }) running
  run_next :
      {r : Routine} {rs : List Routine}
      → s.batch ≡ r ∷ rs
      → Move s running (record s { batch = rs; ran = s.ran ++ r ∷ [] }) running
  run_done : s.batch ≡ [] → Move s running s unlocking
  unlock_win :
      head_ptr s.chain.routines s.chain.closed ≡ closed_ptr
      → Move s unlocking (record s { chain = record { routines = []; closed = false } }) idle
  unlock_lose : head_ptr s.chain.routines s.chain.closed ≢ closed_ptr → Move s unlocking s lock

pub record System : Type 0 where
  pub strand : Strand
  pub pc : ℕ → Pc

abbrev pub init : System
init = record {
  strand = record {
    chain = record { routines = []; closed = false };
    batch = [];
    queued = 0;
    submitted = [];
    ran = [];
  };
  pc = λ _. idle;
}

-- One of `n` threads moves.
pub data Step (n : ℕ) (s : System) : System → Type 0 where
  step :
      (i : ℕ) {t : Strand} {p : Pc}
      → i < n
      → Move s.strand (s.pc i) t p
      → Step n s (record { strand = t; pc = update s.pc i p })

pub data Reach (n : ℕ) : System → Type 0 where
  here : Reach n init
  next : {s t : System} → Reach n s → Step n s t → Reach n t
