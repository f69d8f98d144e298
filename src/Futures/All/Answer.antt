-- ===== src/Futures/All/Answer.antt =====
-- futures/api/all.hpp: what the promise of `All` is set to.
use concurrency_library.Common.{
  ℕ, zero, suc, ◌+◌, ◌<◌, ◌≡◌, refl, sym, ap, ◌∙◌, ◌⊎◌, inl, inr, true, false, List, [], ◌∷◌,
  Option, none, some, length, arith,
}
use concurrency_library.Futures.Result.{
  Result, Call, returned, thrown, ready, has_exception, value_or_throw, try_set, call_with,
}
use concurrency_library.Futures.All.{Value, done, collect, System, Reach}
use concurrency_library.Futures.All.Complete.{completed_once}

abbrev pub value_of {ℓ} : {T : Type ℓ} → T → Result T
value_of v = record { value = some v; exception = none }

abbrev pub failure {ℓ} : {T : Type ℓ} → ℕ → Result T
failure e = record { value = none; exception = some e }

abbrev pub get_elem? : List Value → ℕ → Option Value
get_elem? [] i = none
get_elem? (x ∷ xs) zero = some x
get_elem? (x ∷ xs) (suc i) = get_elem? xs i

-- The `n` results from `i` on are values, and the list has each of them at its place.
abbrev pub Values : (ℕ → Result Value) → (i n : ℕ) → List Value → Type 0
Values outcome i n vs =
    (length vs ≡ n)
    × ((j : ℕ) → j < n → (v : Value) × (outcome (i + j) ≡ value_of v) × (get_elem? vs j ≡ some v))

-- The first of the `n` results from `i` on that is an exception is `e`.
abbrev pub FirstFailure : (ℕ → Result Value) → (i n : ℕ) → ℕ → Type 0
FirstFailure outcome i n e =
    (k : ℕ) × (k < n)
    × (outcome (i + k) ≡ failure e)
    × ((j : ℕ) → j < k → has_exception (outcome (i + j)) ≡ false)

-- What a result of a list is that stands for the `n` results.
abbrev pub InOrder : (ℕ → Result Value) → ℕ → Result (List Value) → Type 0
InOrder outcome n r =
    ((vs : List Value) × (r ≡ value_of vs) × Values outcome 0 n vs)
    ⊎ ((e : ℕ) × (r ≡ failure e) × FirstFailure outcome 0 n e)

ready-cases :
    (r : Result Value)
    → ready r ≡ true
    → ((v : Value) × (r ≡ value_of v)) ⊎ ((e : ℕ) × (r ≡ failure e))
ready-cases r h = go r.value r.exception h
  where
    go :
        (value : Option Value) (exception : Option ℕ)
        → ready (record { value = value; exception = exception }) ≡ true
        → ((v : Value) × (◌≡◌ {A = Result Value}
              (record { value = value; exception = exception })
              (value_of v)))
          ⊎ ((e : ℕ) × (◌≡◌ {A = Result Value}
                (record { value = value; exception = exception })
                (failure e)))
    go (some v) none h = inl (v, refl)
    go none (some e) h = inr (e, refl)
    go none none h = absurd cc
    go (some v) (some e) h = absurd cc

module _ (outcome : ℕ → Result Value) where
  abbrev Collected : (i left : ℕ) → Call (List Value) → Type 0
  Collected i left c =
      ((vs : List Value) × (c ≡ returned vs) × Values outcome i left vs)
      ⊎ ((e : ℕ) × (c ≡ thrown e) × FirstFailure outcome i left e)

  at_next : (i j : ℕ) → outcome (i + 1 + j) ≡ outcome (i + suc j)
  at_next i j = ap outcome (omega arith)

  at_first : (i : ℕ) → outcome (i + 0) ≡ outcome i
  at_first i = ap outcome (omega arith)

  Values-cons :
      (i left : ℕ) (v : Value) (vs : List Value)
      → outcome i ≡ value_of v
      → Values outcome (i + 1) left vs
      → Values outcome i (suc left) (v ∷ vs)
  Values-cons i left v vs e (len, at) = (ap suc len, get)
    where
      get :
          (j : ℕ)
          → j < suc left
          → (x : Value) × (outcome (i + j) ≡ value_of x) × (get_elem? (v ∷ vs) j ≡ some x)
      get zero lt = (v, at_first i ∙ e, refl)
      get (suc j) lt = let (x, o, g) = at j (omega (arith, lt)) in (x, sym (at_next i j) ∙ o, g)

  FirstFailure-cons :
      (i left : ℕ) (v : Value) (e : ℕ)
      → outcome i ≡ value_of v
      → FirstFailure outcome (i + 1) left e
      → FirstFailure outcome i (suc left) e
  FirstFailure-cons i left v e o (k, lt, bad, before) =
      (suc k, omega (arith, lt), sym (at_next i k) ∙ bad, none_before)
    where
      none_before : (j : ℕ) → j < suc k → has_exception (outcome (i + j)) ≡ false
      none_before zero h = ap has_exception (at_first i ∙ o)
      none_before (suc j) h = ap has_exception (sym (at_next i j)) ∙ before j (omega (arith, h))

  collect-Collected :
      (i left : ℕ)
      → ((j : ℕ) → j < i + left → ready (outcome j) ≡ true)
      → Collected i left (collect outcome i left)
  unfolding collect call_with value_or_throw
  collect-Collected i zero h = inl ([], refl, (refl, λ j lt. absurd (omega (arith, lt))))
  collect-Collected i (suc left) h =
      let later = collect-Collected (i + 1) left (λ j lt. h j (omega (arith, lt))) in
      elim (ready-cases (outcome i) (h i (omega arith))) [
        | inl (v, o) ↦ elim later [
          | inl (vs, e, values) ↦ inl (v ∷ vs, rw (o, e) refl, Values-cons i left v vs o values)
          | inr (x, e, first) ↦ inr (x, rw (o, e) refl, FirstFailure-cons i left v x o first)
        ]
        | inr (x, o) ↦
            inr (x, rw o refl, (0, omega arith, at_first i ∙ o, λ j lt. absurd (omega (arith, lt))))
      ]

module _ (n : ℕ) (outcome : ℕ → Result Value) where
  -- Once all callbacks of `All` of at least one future are done, in any interleaving, where each
  -- result is a value or an exception: its promise has been set once, and the shared promise has
  -- been deleted once. If all results are values, it was set to a list with the value of each
  -- future at the place of that future, and else to the exception of the first future that has one.
  pub set_when_done :
      {s : System n outcome}
      → Reach n outcome s
      → 0 < n
      → ((i : ℕ) → i < n → s.pc i ≡ done)
      → ((i : ℕ) → i < n → ready (outcome i) ≡ true)
      → (r : Result (List Value)) × (s.shared.sets ≡ some r ∷ [])
        × InOrder outcome n r
        × (s.shared.deletions ≡ 1)
  unfolding try_set
  set_when_done r some_future all_done complete =
      let (sets, deletions) = completed_once n outcome r some_future all_done in
      elim (collect-Collected outcome 0 n (λ j lt. complete j (omega (arith, lt)))) [
        | inl (vs, e, values) ↦ (value_of vs, sets ∙ rw e refl, inl (vs, refl, values), deletions)
        | inr (x, e, first) ↦ (failure x, sets ∙ rw e refl, inr (x, refl, first), deletions)
      ]
