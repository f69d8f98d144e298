-- ===== src/Common/Lists.antt =====
-- Lists measured and searched by native numbers, and functions updated at one argument.
use Prim.Native.Nat.{ℕ, zero, suc, ◌+◌, ◌≤◌, ◌<◌}
use Prim.Native.Nat.add
use mathlib.Core.Path.{◌≡◌, refl, ap}
use mathlib.Core.Logic.{◌≢◌}
use mathlib.Core.Bool.{Bool, true, false, ◌||◌}
use mathlib.Core.List.{List, [], ◌∷◌, ◌++◌}
use native.Mathlib.Omega.{arith}
use concurrency_library.Common.Tests.{◌==◌, if◌then◌else◌}

abbrev pub update {ℓ} : {A : Type ℓ} → (ℕ → A) → ℕ → A → ℕ → A
update f p v q = if p == q then v else f q

-- What holds of the new value and of all old ones holds everywhere after the update.
pub update-all {ℓ κ} :
    {A : Type ℓ} (P : A → Type κ) (f : ℕ → A) (p : ℕ) (v : A)
    → P v
    → ((q : ℕ) → P (f q))
    → (q : ℕ) → P (update f p v q)
update-all P f p v new old q = elim (p == q) as (λ b. P (if b then v else f q)) [
  | true ↦ new
  | false ↦ old q
]

abbrev pub has : ℕ → List ℕ → Bool
has a [] = false
has a (x ∷ xs) = (a == x) || has a xs

-- No number stands twice in the list.
abbrev pub Distinct : List ℕ → Type 0
Distinct [] = Unit
Distinct (x ∷ xs) = (has x xs ≡ false) × Distinct xs

-- The last element, `0` if there is none.
abbrev pub last : List ℕ → ℕ
last [] = 0
last (x ∷ []) = x
last (x ∷ y ∷ xs) = last (y ∷ xs)

pub has-last : (x : ℕ) (xs : List ℕ) → has (last (x ∷ xs)) (x ∷ xs) ≡ true
has-last x [] = ground arith
has-last x (y ∷ xs) = ground (arith, has-last y xs)

pub last-ne : (a x : ℕ) (xs : List ℕ) → has a (x ∷ xs) ≡ false → last (x ∷ xs) ≢ a
last-ne a x xs out = ground (arith, has-last x xs)

pub has-append : (a : ℕ) (xs ys : List ℕ) → has a (xs ++ ys) ≡ (has a xs || has a ys)
has-append a [] ys = refl
has-append a (x ∷ xs) ys = ground (arith, has-append a xs ys)

-- No number stands in both lists.
abbrev pub Disjoint : List ℕ → List ℕ → Type 0
Disjoint [] ys = Unit
Disjoint (x ∷ xs) ys = (has x ys ≡ false) × Disjoint xs ys

pub Distinct-append :
    (xs ys : List ℕ) → Distinct xs → Distinct ys → Disjoint xs ys → Distinct (xs ++ ys)
Distinct-append [] ys dx dy apart = dy
Distinct-append (x ∷ xs) ys dx dy apart =
    (ground (arith, has-append x xs ys), Distinct-append xs ys dx.1 dy apart.1)

pub Disjoint-ne : (a : ℕ) (xs ys : List ℕ) → Disjoint xs ys → has a xs ≡ true → has a ys ≡ false
Disjoint-ne a [] ys apart h = ground arith
Disjoint-ne a (x ∷ xs) ys apart h = ground (arith, Disjoint-ne a xs ys)

pub Disjoint-ne_left :
    (a : ℕ) (xs ys : List ℕ) → Disjoint xs ys → has a ys ≡ true → has a xs ≡ false
Disjoint-ne_left a [] ys apart h = refl
Disjoint-ne_left a (x ∷ xs) ys apart h = ground (arith, Disjoint-ne_left a xs ys)

pub Disjoint-tail : (a : ℕ) (xs ys : List ℕ) → Disjoint xs (a ∷ ys) → Disjoint xs ys
Disjoint-tail a [] ys apart = tt
Disjoint-tail a (x ∷ xs) ys apart = (ground arith, Disjoint-tail a xs ys apart.1)

pub Disjoint-one : (a : ℕ) (xs : List ℕ) → has a xs ≡ false → Disjoint xs (a ∷ [])
Disjoint-one a [] h = tt
Disjoint-one a (x ∷ xs) h = (ground arith, Disjoint-one a xs (ground arith))

pub Disjoint-nil : (xs : List ℕ) → Disjoint xs []
Disjoint-nil [] = tt
Disjoint-nil (x ∷ xs) = (refl, Disjoint-nil xs)

-- The parts of a list without repetition have none, and share nothing.
pub Distinct-split :
    (xs ys : List ℕ) → Distinct (xs ++ ys) → Distinct xs × Distinct ys × Disjoint xs ys
Distinct-split [] ys d = (tt, d, tt)
Distinct-split (x ∷ xs) ys d =
    let (dx, dy, apart) = Distinct-split xs ys d.1 in
    ((ground (arith, has-append x xs ys), dx), dy, (ground (arith, has-append x xs ys), apart))

pub last-append : (xs : List ℕ) (y : ℕ) (ys : List ℕ) → last (xs ++ y ∷ ys) ≡ last (y ∷ ys)
last-append [] y ys = refl
last-append (x ∷ []) y ys = refl
last-append (x ∷ z ∷ xs) y ys = last-append (z ∷ xs) y ys

module _ {ℓ} {A : Type ℓ} where
  abbrev pub length : List A → ℕ
  length [] = 0
  length (x ∷ xs) = suc (length xs)

  abbrev pub take : ℕ → List A → List A
  take zero xs = []
  take (suc n) [] = []
  take (suc n) (x ∷ xs) = x ∷ take n xs

  abbrev pub drop : ℕ → List A → List A
  drop zero xs = xs
  drop (suc n) [] = []
  drop (suc n) (x ∷ xs) = drop n xs

  pub length-append : (xs ys : List A) → length (xs ++ ys) ≡ length xs + length ys
  length-append [] ys = omega arith
  length-append (x ∷ xs) ys = omega (arith, length-append xs ys)

module _ {ℓ} {A : Type ℓ} where
  abbrev pub get_or : List A → ℕ → A → A
  get_or [] i d = d
  get_or (x ∷ xs) zero d = x
  get_or (x ∷ xs) (suc i) d = get_or xs i d

  pub get_or-append_left :
      (xs ys : List A) (i : ℕ) (d : A) → i < length xs → get_or (xs ++ ys) i d ≡ get_or xs i d
  get_or-append_left [] ys i d h = absurd (omega arith)
  get_or-append_left (x ∷ xs) ys zero d h = refl
  get_or-append_left (x ∷ xs) ys (suc i) d h = get_or-append_left xs ys i d (omega arith)

  pub get_or-append_length : (xs : List A) (y d : A) → get_or (xs ++ y ∷ []) (length xs) d ≡ y
  get_or-append_length [] y d = refl
  get_or-append_length (x ∷ xs) y d = get_or-append_length xs y d

  pub length-take : (n : ℕ) (xs : List A) → n ≤ length xs → length (take n xs) ≡ n
  length-take zero xs h = refl
  length-take (suc n) [] h = absurd (omega arith)
  length-take (suc n) (x ∷ xs) h = omega (arith, length-take n xs (omega arith))

  pub take-append : (n : ℕ) (xs ys : List A) → n ≤ length xs → take n (xs ++ ys) ≡ take n xs
  take-append zero xs ys h = refl
  take-append (suc n) [] ys h = absurd (omega arith)
  take-append (suc n) (x ∷ xs) ys h = ap (◌∷◌ x) (take-append n xs ys (omega arith))

  pub take-drop-append :
      (k h : ℕ) (xs ys : List A)
      → h + k ≤ length xs
      → take k (drop h (xs ++ ys)) ≡ take k (drop h xs)
  take-drop-append k zero xs ys e = take-append k xs ys (omega arith)
  take-drop-append k (suc h) [] ys e = absurd (omega arith)
  take-drop-append k (suc h) (x ∷ xs) ys e = take-drop-append k h xs ys (omega arith)

  pub take_add : (h k : ℕ) (xs : List A) → take (h + k) xs ≡ take h xs ++ take k (drop h xs)
  take_add zero k xs = rw (add.zero k)
  take_add (suc h) zero [] = rw (add.suc h zero)
  take_add (suc h) (suc k) [] = rw (add.suc h (suc k))
  take_add (suc h) k (x ∷ xs) = rw (add.suc h k) (ap (◌∷◌ x) (take_add h k xs))

  -- A stretch of a list grows by the next element.
  pub take_snoc :
      (k h : ℕ) (xs : List A) (d : A)
      → h + k < length xs
      → take (suc k) (drop h xs) ≡ take k (drop h xs) ++ get_or xs (h + k) d ∷ []
  take_snoc k (suc h) [] d e = absurd (omega arith)
  take_snoc k (suc h) (x ∷ xs) d e = rw (add.suc h k) (take_snoc k h xs d (omega arith))
  take_snoc k zero [] d e = absurd (omega arith)
  take_snoc zero zero (x ∷ xs) d e = refl
  take_snoc (suc k) zero (x ∷ xs) d e =
      rw (add.zero (suc k)) (ap (◌∷◌ x) (rw (add.zero k) at (take_snoc k zero xs d (omega arith))))

  pub take-length : (xs : List A) → take (length xs) xs ≡ xs
  take-length [] = refl
  take-length (x ∷ xs) = ap (◌∷◌ x) (take-length xs)

  pub take-append-drop : (n : ℕ) (xs : List A) → take n xs ++ drop n xs ≡ xs
  take-append-drop zero xs = refl
  take-append-drop (suc n) [] = refl
  take-append-drop (suc n) (x ∷ xs) = ap (◌∷◌ x) (take-append-drop n xs)
