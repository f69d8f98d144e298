-- ===== src/Fibers/Mutex/Safety.antt =====
-- fibers/sync/mutex.hpp: what holds in every interleaving of the fibers.
use concurrency_library.Common.{
  ℕ, ◌<◌, ◌≡◌, true, false, List, [], ◌∷◌, ◌++◌, has, arith, weigh-ge, weigh-ge_two, ℕ_discrete,
}
use concurrency_library.Fibers.Mutex.{suspended, releasing, System, Reach}
use concurrency_library.Fibers.Mutex.Invariant.{owns, waits, bit_le}
use concurrency_library.Fibers.Mutex.Kept.{Reach-Inv, suspended_at}

-- In every interleaving of `n` fibers in which no guard is released twice at most one of them owns
-- the mutex, from the moment it gets it or is handed it until it releases it, and while one does
-- the mutex is closed.
pub one_owner :
    {n : ℕ} {s : System}
    → Reach n s
    → s.mutex.twice ≡ false
    → (i j : ℕ) → i < n
    → j < n
    → owns (s.pc i) ≡ 1
    → owns (s.pc j) ≡ 1
    → (i ≡ j) × (s.mutex.closed ≡ true)
one_owner {n} {s} r fine i j hi hj oi oj =
    let h = Reach-Inv r fine in
    (
      elim (ℕ_discrete i j) [
        | yes e ↦ e
        | no ne ↦ absurd (
            omega (
              arith,
              h.owning,
              bit_le s.mutex.closed,
              weigh-ge_two owns n i j s.pc hi hj ne,
              oi,
              oj,
            ))
      ],
      ground (arith, h.owning, weigh-ge owns n i s.pc hi, oi),
    )

-- In every such interleaving the fibers get the mutex in the order in which they found it open or
-- queued, each once: those that arrived are those that got it and then those in the queue; the
-- fibers in the queue are exactly those that wait, and nobody waits while the mutex is open.
pub granted_in_order :
    {n : ℕ} {s : System}
    → Reach n s
    → s.mutex.twice ≡ false
    → (s.mutex.arrived ≡ s.mutex.granted ++ s.mutex.queue)
      × ((j : ℕ) → has j s.mutex.queue ≡ waits (s.pc j))
      × (s.mutex.closed ≡ false → s.mutex.queue ≡ [])
granted_in_order r fine = let h = Reach-Inv r fine in (h.order, h.waiting, h.open_empty)

-- In every such interleaving, when a fiber that releases the mutex finds an awaiter at the front of the
-- queue, its fiber is already suspended, so `Resume` never schedules a fiber that still runs.
pub resumes_suspended :
    {n : ℕ} {s : System} {rest : List ℕ} (i j : ℕ)
    → Reach n s
    → s.mutex.twice ≡ false
    → i < n
    → s.pc i ≡ releasing
    → s.mutex.queue ≡ j ∷ rest
    → s.pc j ≡ suspended
resumes_suspended {rest} i j r fine lt at front =
    suspended_at (Reach-Inv r fine) i lt j rest at front
