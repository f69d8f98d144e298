-- ===== src/Fibers/WaitGroup/Safety.antt =====
-- fibers/sync/waitgroup.hpp: what holds in every interleaving of the fibers.
use concurrency_library.Common.{ℕ, ◌<◌, ◌≡◌, subst, true, false, List, ◌∷◌}
use concurrency_library.Fibers.WaitGroup.{suspended, resuming, System, Reach}
use concurrency_library.Fibers.WaitGroup.Invariant.{pending, Good}
use concurrency_library.Fibers.WaitGroup.Kept.{Reach-Inv, second_at}

-- In every such interleaving, when `Resume` finds the flag of an awaiter set, and so schedules its
-- fiber, that fiber has suspended.
pub schedules_suspended :
    {n : ℕ} {s : System} (i j : ℕ) (js : List ℕ)
    → Reach n s
    → s.group.looped ≡ false
    → i < n
    → s.pc i ≡ resuming (j ∷ js)
    → s.group.resumed j ≡ true
    → s.pc j ≡ suspended
schedules_suspended i j js r fine lt at set = second_at (Reach-Inv r fine) i lt j js at set

-- In every interleaving of `n` fibers in which none has taken a stack of two or more awaiters, the
-- awaiter of a fiber that has suspended is exactly once in the stack of the wait group or among the
-- awaiters that some fiber is about to resume, and its flag is set, so the `Resume` that comes
-- schedules it.
pub suspended_pending :
    {n : ℕ} {s : System} (j : ℕ)
    → Reach n s
    → s.group.looped ≡ false
    → s.pc j ≡ suspended
    → (pending n s.group s.pc j ≡ 1) × (s.group.resumed j ≡ true)
suspended_pending {n} {s} j r fine at =
    subst (λ p. Good p (pending n s.group s.pc j) (s.group.resumed j)) at
      ((Reach-Inv r fine).good j)
