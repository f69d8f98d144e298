-- ===== src/LockFree/Bounded.antt =====
-- The bounded queue that a ring buffer stands for.
use concurrency_library.Common.{
  ℕ, Bool, true, false, List, [], ◌∷◌, ◌++◌, length, ◌==◌, if◌then◌else◌,
}

abbrev pub push : ℕ → List ℕ → ℕ → Bool × List ℕ
push capacity xs x = if length xs == capacity then (false, xs) else (true, xs ++ x ∷ [])

-- `0`, the null pointer, if there is nothing to pop.
abbrev pub pop : List ℕ → ℕ × List ℕ
pop [] = (0, [])
pop (x ∷ xs) = (x, xs)
