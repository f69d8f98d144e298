-- ===== src/Detail/SpinLock/Invariant.antt =====
-- detail/spinlock.hpp: the invariant of the spinlock. The guards in the queue have the tickets from
-- the number of releases up to the number of entries, and each knows the one behind it once that
-- one has linked itself.
use concurrency_library.Common.{
  ℕ, ◌+◌, ◌-◌, ◌<◌, ◌≤◌, ◌≡◌, Bool, true, false, none, some, ◌==◌, if◌then◌else◌,
}
use concurrency_library.Detail.SpinLock.{
  Pc, outside, swapping, linking, waiting, holding, releasing, handing, waking, SpinLock,
}

-- A thread whose guard is in the queue, and one that has the lock.
abbrev pub queued : Pc → Bool
queued outside = false
queued (swapping old) = false
queued _ = true

abbrev pub owns : Pc → Bool
owns holding = true
owns releasing = true
owns handing = true
owns (waking k) = true
owns _ = false

-- The guard of `i` is in the queue; `who` gives the thread of a ticket.
pub record In (s : SpinLock) (who : ℕ → ℕ) (i : ℕ) : Type 0 where
  pub from : s.released ≤ s.ticket i
  pub below : s.ticket i < s.entered
  pub mine : who (s.ticket i) ≡ i

-- What a thread that stands there knows.
abbrev pub Good : SpinLock → (ℕ → ℕ) → ℕ → Pc → Type 0
Good s who i outside = Unit {0}
Good s who i (swapping old) = (s.owner i ≡ false) × (s.next i ≡ none)
Good s who i (linking j) =
    In s who i
    × (s.released < s.ticket i)
    × (j ≡ who (s.ticket i - 1))
    × (s.next j ≡ none)
    × (s.owner i ≡ false)
Good s who i waiting =
    In s who i
    × (s.owner i ≡ true → s.ticket i ≡ s.released)
    × (s.owner i ≡ false → (s.released < s.ticket i) × (s.next (who (s.ticket i - 1)) ≡ some i))
Good s who i holding = In s who i × (s.ticket i ≡ s.released)
Good s who i releasing = In s who i × (s.ticket i ≡ s.released)
Good s who i handing = In s who i × (s.ticket i ≡ s.released) × (s.released + 1 < s.entered)
Good s who i (waking k) =
    In s who i
    × (s.ticket i ≡ s.released)
    × (s.released + 1 < s.entered)
    × (k ≡ who (s.released + 1))
    × (s.next i ≡ some k)

pub record Inv (s : SpinLock) (pc : ℕ → Pc) : Type 0 where
  pub who : ℕ → ℕ
  pub order : s.released ≤ s.entered
  pub last : s.tail ≡ (if s.released == s.entered then none else some (who (s.entered - 1)))
  pub open_end : s.released < s.entered → s.next (who (s.entered - 1)) ≡ none
  pub place :
      (t : ℕ)
      → s.released ≤ t
      → t < s.entered
      → (s.ticket (who t) ≡ t) × (queued (pc (who t)) ≡ true)
  pub good : (i : ℕ) → Good s who i (pc i)
