-- ===== src/Fibers/Mutex/Invariant.antt =====
-- fibers/sync/mutex.hpp: the invariant of the mutex.
use concurrency_library.Common.{
  ℕ, ◌≤◌, ◌≡◌, ◌≢◌, refl, sym, Bool, true, false, Option, none, some, List, [], ◌∷◌, ◌++◌, has,
  Distinct, ◌==◌, if◌then◌else◌, arith, weigh, ◌⊎◌, inl, inr,
}
use concurrency_library.Fibers.Mutex.{
  Pc, outside, locking, testing, suspending, suspended, scheduled, undefined, owner, unlocking,
  releasing, Mutex,
}

-- A fiber that holds the spinlock, and one that has the mutex or is handed it.
abbrev pub spins : Pc → ℕ
spins testing = 1
spins suspending = 1
spins releasing = 1
spins _ = 0

abbrev pub owns : Pc → ℕ
owns scheduled = 1
owns owner = 1
owns unlocking = 1
owns releasing = 1
owns _ = 0

abbrev pub waits : Pc → Bool
waits suspending = true
waits suspended = true
waits _ = false

abbrev pub held : Option ℕ → ℕ
held none = 0
held (some i) = 1

abbrev pub bit : Bool → ℕ
bit b = if b then 1 else 0

pub record Inv (n : ℕ) (s : Mutex) (pc : ℕ → Pc) : Type 0 where
  pub spinning : weigh spins n pc ≡ held s.spinlock
  pub owning : weigh owns n pc ≡ bit s.closed
  pub waiting : (j : ℕ) → has j s.queue ≡ waits (pc j)
  pub distinct : Distinct s.queue
  pub idle : (j : ℕ) → n ≤ j → pc j ≡ outside
  pub order : s.arrived ≡ s.granted ++ s.queue
  pub open_empty : s.closed ≡ false → s.queue ≡ []

pub held_le : (o : Option ℕ) → held o ≤ 1
held_le none = omega arith
held_le (some i) = omega arith

pub bit_le : (b : Bool) → bit b ≤ 1
bit_le b = ground arith

pub true-ne : true ≢ false
true-ne = cc

pub waits_cases : (p : Pc) → waits p ≡ true → (p ≡ suspended) ⊎ (spins p ≡ 1)
waits_cases suspending w = inr refl
waits_cases suspended w = inl refl
waits_cases outside w = absurd (true-ne (sym w))
waits_cases locking w = absurd (true-ne (sym w))
waits_cases testing w = absurd (true-ne (sym w))
waits_cases undefined w = absurd (true-ne (sym w))
waits_cases scheduled w = absurd (true-ne (sym w))
waits_cases owner w = absurd (true-ne (sym w))
waits_cases unlocking w = absurd (true-ne (sym w))
waits_cases releasing w = absurd (true-ne (sym w))

pub has-snoc : (j i : ℕ) (xs : List ℕ) → has j (xs ++ i ∷ []) ≡ (if j == i then true else has j xs)
has-snoc j i [] = ground arith
has-snoc j i (x ∷ xs) = ground (arith, has-snoc j i xs)
