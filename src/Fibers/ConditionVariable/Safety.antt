-- ===== src/Fibers/ConditionVariable/Safety.antt =====
-- fibers/sync/condition_variable.hpp: what holds in every interleaving of the fibers.
use concurrency_library.Common.{ℕ, ◌<◌, ◌≡◌, false, List, ◌∷◌, ◌++◌, has}
use concurrency_library.Fibers.ConditionVariable.{Pc, suspended, Notifies, System, Reach}
use concurrency_library.Fibers.ConditionVariable.Kept.{waits, Reach-Inv, suspended_at}

-- In every interleaving of `n` fibers in which no guard is released twice the awaiters are resumed
-- in the order in which they were pushed, each once: those that were pushed are those that were
-- resumed and then those in the queue; and the fibers in the queue are exactly those that wait.
pub notified_in_order :
    {n : ℕ} {s : System}
    → Reach n s
    → s.condition.twice ≡ false
    → (s.condition.arrived ≡ s.condition.notified ++ s.condition.queue)
      × ((j : ℕ) → has j s.condition.queue ≡ waits (s.pc j))
notified_in_order r fine = let h = Reach-Inv r fine in (h.order, h.waiting)

-- In every such interleaving, when `NotifyOne` or `NotifyAll` is about to resume the awaiter at the front
-- of the queue, its fiber is already suspended, so `Resume` never schedules a fiber that still runs.
pub wakes_suspended :
    {n : ℕ} {s : System} {rest : List ℕ} {p : Pc} (i j : ℕ)
    → Reach n s
    → s.condition.twice ≡ false
    → i < n
    → Notifies (s.pc i) p
    → s.condition.queue ≡ j ∷ rest
    → s.pc j ≡ suspended
wakes_suspended {rest} {p} i j r fine lt by front =
    suspended_at (Reach-Inv r fine) i lt j rest p by front
