-- ===== src/Fibers/WaitGroup/Invariant.antt =====
-- fibers/sync/waitgroup.hpp: the invariant of the wait group.
use concurrency_library.Common.{
  ℕ, ◌+◌, ◌≤◌, ◌≡◌, Bool, true, false, List, [], ◌∷◌, ◌==◌, if◌then◌else◌, weigh, ◌⊎◌,
}
use concurrency_library.Fibers.WaitGroup.{
  Pc, outside, pushing, suspending, suspended, resuming, WaitGroup,
}

abbrev pub bit : Bool → ℕ
bit b = if b then 1 else 0

-- How often `j` is in a list.
abbrev pub times : ℕ → List ℕ → ℕ
times j [] = 0
times j (x ∷ xs) = bit (j == x) + times j xs

-- How often a fiber has `j` still to resume.
abbrev pub in_hand : ℕ → Pc → ℕ
in_hand j (resuming js) = times j js
in_hand j _ = 0

-- How often the awaiter of `j` is where it will be resumed.
abbrev pub pending : ℕ → WaitGroup → (ℕ → Pc) → ℕ → ℕ
pending n s pc j = times j s.head + weigh (in_hand j) n pc

-- An awaiter is pending once until it is resumed, and its flag says who came first.
abbrev pub Good : Pc → ℕ → Bool → Type 0
Good suspending k b = ((k ≡ 1) × (b ≡ false)) ⊎ ((k ≡ 0) × (b ≡ true))
Good suspended k b = (k ≡ 1) × (b ≡ true)
Good (pushing old) k b = (k ≡ 0) × (b ≡ false)
Good _ k b = k ≡ 0

pub record Inv (n : ℕ) (s : WaitGroup) (pc : ℕ → Pc) : Type 0 where
  pub good : (j : ℕ) → Good (pc j) (pending n s pc j) (s.resumed j)
  pub idle : (j : ℕ) → n ≤ j → pc j ≡ outside
