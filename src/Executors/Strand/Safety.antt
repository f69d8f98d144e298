-- ===== src/Executors/Strand/Safety.antt =====
-- executors/strand.hpp: what holds in every reachable state.
use concurrency_library.Common.{
  ℕ, ◌+◌, ◌<◌, ◌≤◌, ◌≡◌, refl, sym, ap₂, ◌∙◌, Bool, List, [], ◌∷◌, ◌++◌, reverse, append-nil, weigh,
  weigh-ge, weigh-ge_two, weigh-eq_zero, arith, ℕ_discrete,
}
use concurrency_library.Executors.Strand.{Routine, Pc, idle, System, Reach}
use concurrency_library.Executors.Strand.Invariant.{takes, holds, owned, owned_le, Reach-Inv}

-- A thread works for the strand from the moment it gets it (it pushed the first routine, or took
-- `batch_` from the executor below) until it gives it up.
abbrev pub works : Pc → ℕ
works p = takes p + holds p

-- In every interleaving of `n` threads at most one of them works for the strand, so no two run its
-- routines at once, and while one does, `batch_` does not wait in the executor below.
pub mutual_exclusion :
    {n : ℕ} {s : System}
    → Reach n s
    → (i j : ℕ) → i < n
    → j < n
    → works (s.pc i) ≡ 1
    → works (s.pc j) ≡ 1
    → (i ≡ j) × (s.strand.queued ≡ 0)
mutual_exclusion {n} {s} r i j hi hj wi wj = elim (ℕ_discrete i j) [
  | yes e ↦ (e, omega (arith, owner, one, weigh-ge takes n i s.pc hi, weigh-ge holds n i s.pc hi))
  | no ne ↦ absurd (
      omega (
        arith,
        owner,
        one,
        weigh-ge_two takes n i j s.pc hi hj ne,
        weigh-ge_two holds n i j s.pc hi hj ne,
      ))
]
  where
    open (Reach-Inv r) use {owner}

    one : owned s.strand.chain.routines s.strand.chain.closed ≤ 1
    one = owned_le s.strand.chain.routines s.strand.chain.closed

-- In every interleaving the routines run in the order in which they were pushed, each once: those
-- pushed are those that have run, then the batch from its top, then those in the chain, oldest
-- first.
pub first_in_first_out :
    {n : ℕ} {s : System}
    → Reach n s
    → s.strand.submitted ≡ s.strand.ran ++ (s.strand.batch ++ reverse s.strand.chain.routines)
first_in_first_out r = (Reach-Inv r).order

nil_of_owned : (rs : List Routine) (c : Bool) → owned rs c ≡ 0 → rs ≡ []
nil_of_owned [] c h = refl
nil_of_owned (r ∷ rs) c h = absurd (omega arith)

-- No routine is lost: in a reachable state in which every thread is idle and `batch_` does not wait
-- in the executor below, all routines pushed have run, in order.
pub nothing_lost :
    {n : ℕ} {s : System}
    → Reach n s
    → ((i : ℕ) → s.pc i ≡ idle)
    → s.strand.queued ≡ 0
    → s.strand.ran ≡ s.strand.submitted
nothing_lost {n} {s} r quiet none_queued = sym (
    order
    ∙ ap₂ (λ b rs. s.strand.ran ++ (b ++ reverse rs)) (drained (omega (arith, none_held)))
        (nil_of_owned s.strand.chain.routines s.strand.chain.closed
          (omega (arith, owner, none_taken, none_held)))
    ∙ append-nil s.strand.ran)
  where
    open (Reach-Inv r) use {owner, drained, order}

    none_taken : weigh takes n s.pc ≡ 0
    none_taken = weigh-eq_zero takes n s.pc (λ i. ground (arith, quiet i))

    none_held : weigh holds n s.pc ≡ 0
    none_held = weigh-eq_zero holds n s.pc (λ i. ground (arith, quiet i))
