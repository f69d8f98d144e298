-- ===== src/Intrusive/Memory/Chain.antt =====
-- Chains of `next` pointers that end at the null pointer.
use concurrency_library.Common.{
  ℕ, ◌≡◌, ◌≢◌, true, false, List, [], ◌∷◌, ◌++◌, ==_of_ne, ==_refl, update, has, Distinct, last,
  has-last, arith,
}

-- From `p` the function `next` leads through the nodes `xs` to the null pointer.
abbrev pub Chain : (ℕ → ℕ) → ℕ → List ℕ → Type 0
Chain next p [] = p ≡ 0
Chain next p (x ∷ xs) = (p ≡ x) × (x ≢ 0) × Chain next (next x) xs

-- A write to a node that is not in the chain leaves the chain alone.
pub Chain-update :
    (next : ℕ → ℕ) (p : ℕ) (xs : List ℕ) (a c : ℕ)
    → Chain next p xs
    → has a xs ≡ false
    → Chain (update next a c) p xs
Chain-update next p [] a c ch out = ch
Chain-update next p (x ∷ xs) a c ch out = (
  ch.0,
  ch.1,
  rw (==_of_ne a x (ground arith)) (Chain-update next (next x) xs a c ch.2 (ground arith)),
)

pub Chain-append :
    (next : ℕ → ℕ) (p x : ℕ) (xs ys : List ℕ) (r : ℕ)
    → Chain next p (x ∷ xs)
    → Distinct (x ∷ xs)
    → Chain (update next (last (x ∷ xs)) r) r ys
    → Chain (update next (last (x ∷ xs)) r) p ((x ∷ xs) ++ ys)
Chain-append next p x [] ys r ch d rest = (ch.0, ch.1, rw (==_refl x) rest)
Chain-append next p x (y ∷ xs) ys r ch d rest = (
  ch.0,
  ch.1,
  rw (==_of_ne (last (y ∷ xs)) x (ground (arith, has-last y xs)))
      (Chain-append next (next x) y xs ys r ch.2 d.1 rest),
)

pub Chain-ne_null :
    (next : ℕ → ℕ) (p a : ℕ) (xs : List ℕ) → Chain next p xs → has a xs ≡ true → a ≢ 0
Chain-ne_null next p a [] ch h = ground arith
Chain-ne_null next p a (x ∷ xs) ch h = ground (arith, Chain-ne_null next (next x) a xs)
