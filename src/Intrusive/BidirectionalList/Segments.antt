-- ===== src/Intrusive/BidirectionalList/Segments.antt =====
-- Segments of nodes linked by `next` and `prev`.
use concurrency_library.Common.{
  ℕ, ◌≡◌, ◌≢◌, refl, true, false, List, [], ◌∷◌, ◌++◌, ==_of_ne, ==_refl, update, has, Distinct,
  last, last-ne, arith,
}

-- From `p`, behind the node `b`, the nodes `xs` are linked in both directions up to `stop`.
abbrev pub Seg : (ℕ → ℕ) → (ℕ → ℕ) → ℕ → ℕ → List ℕ → ℕ → Type 0
Seg next prev b p [] stop = p ≡ stop
Seg next prev b p (x ∷ xs) stop =
    (p ≡ x) × (x ≢ 0) × (prev x ≡ b) × Seg next prev x (next x) xs stop

-- The last of the nodes `xs` behind `b`.
abbrev pub last_from : ℕ → List ℕ → ℕ
last_from b [] = b
last_from b (x ∷ xs) = last_from x xs

pub last_from-last : (b x : ℕ) (xs : List ℕ) → last_from b (x ∷ xs) ≡ last (x ∷ xs)
last_from-last b x [] = refl
last_from-last b x (y ∷ xs) = last_from-last x y xs

module _ (next prev : ℕ → ℕ) where
  pub Seg-split :
      (b p : ℕ) (xs ys : List ℕ) (stop : ℕ)
      → Seg next prev b p (xs ++ ys) stop
      → (mid : ℕ) × Seg next prev b p xs mid × Seg next prev (last_from b xs) mid ys stop
  Seg-split b p [] ys stop s = (p, refl, s)
  Seg-split b p (x ∷ xs) ys stop s =
      let (mid, front, back) = Seg-split x (next x) xs ys stop s.3 in
      (mid, (s.0, s.1, s.2, front), back)

  pub Seg-join :
      (b p : ℕ) (xs ys : List ℕ) (mid stop : ℕ)
      → Seg next prev b p xs mid
      → Seg next prev (last_from b xs) mid ys stop
      → Seg next prev b p (xs ++ ys) stop
  Seg-join b p [] ys mid stop s t = rw s t
  Seg-join b p (x ∷ xs) ys mid stop s t = (s.0, s.1, s.2, Seg-join x (next x) xs ys mid stop s.3 t)

  pub Seg-next_update :
      (b p : ℕ) (xs : List ℕ) (stop a c : ℕ)
      → Seg next prev b p xs stop
      → has a xs ≡ false
      → Seg (update next a c) prev b p xs stop
  Seg-next_update b p [] stop a c s out = s
  Seg-next_update b p (x ∷ xs) stop a c s out = (
    s.0,
    s.1,
    s.2,
    rw (==_of_ne a x (ground arith)) (Seg-next_update x (next x) xs stop a c s.3 (ground arith)),
  )

  pub Seg-prev_update :
      (b p : ℕ) (xs : List ℕ) (stop a c : ℕ)
      → Seg next prev b p xs stop
      → has a xs ≡ false
      → Seg next (update prev a c) b p xs stop
  Seg-prev_update b p [] stop a c s out = s
  Seg-prev_update b p (x ∷ xs) stop a c s out = (
    s.0,
    s.1,
    rw (==_of_ne a x (ground arith)) s.2,
    Seg-prev_update x (next x) xs stop a c s.3 (ground arith),
  )

  -- The last node is linked to another successor.
  pub Seg-retarget :
      (b p x : ℕ) (xs : List ℕ) (stop r : ℕ)
      → Seg next prev b p (x ∷ xs) stop
      → Distinct (x ∷ xs)
      → Seg (update next (last (x ∷ xs)) r) prev b p (x ∷ xs) r
  Seg-retarget b p x [] stop r s d = (s.0, s.1, s.2, rw (==_refl x) refl)
  Seg-retarget b p x (y ∷ xs) stop r s d = (
    s.0,
    s.1,
    s.2,
    rw (==_of_ne (last (y ∷ xs)) x (last-ne x y xs d.0))
        (Seg-retarget x (next x) y xs stop r s.3 d.1),
  )

  -- The first node is linked to another predecessor.
  pub Seg-rebase :
      (b p y : ℕ) (ys : List ℕ) (stop c : ℕ)
      → Seg next prev b p (y ∷ ys) stop
      → has y ys ≡ false
      → Seg next (update prev y c) c p (y ∷ ys) stop
  Seg-rebase b p y ys stop c s out =
      (s.0, s.1, rw (==_refl y) refl, Seg-prev_update y (next y) ys stop y c s.3 out)

  pub Seg-ne_null :
      (b p : ℕ) (xs : List ℕ) (stop a : ℕ) → Seg next prev b p xs stop → has a xs ≡ true → a ≢ 0
  Seg-ne_null b p [] stop a s h = ground arith
  Seg-ne_null b p (x ∷ xs) stop a s h = ground (arith, Seg-ne_null x (next x) xs stop a)

  pub Seg-head : (b p x : ℕ) (xs : List ℕ) (stop : ℕ) → Seg next prev b p (x ∷ xs) stop → p ≡ x
  Seg-head b p x xs stop s = s.0
