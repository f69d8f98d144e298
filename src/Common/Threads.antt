-- ===== src/Common/Threads.antt =====
-- Threads as a function from thread numbers to where each stands: what the first `n` threads weigh
-- together, when one of them moves.
use Prim.Native.Nat.{ℕ, zero, suc, ◌+◌, ◌≤◌, ◌<◌}
use mathlib.Core.Path.{◌≡◌, refl}
use mathlib.Core.Logic.{◌≢◌}
use native.Mathlib.Omega.{arith}
use native.Mathlib.Decide.{ℕ_discrete}
use concurrency_library.Common.Tests.{==_of_ne}
use concurrency_library.Common.Lists.{update}

module _ {ℓ} {A : Type ℓ} (weight : A → ℕ) where
  unfoldable pub weigh : ℕ → (ℕ → A) → ℕ
  weigh zero f = 0
  weigh (suc n) f = weight (f n) + weigh n f

  weigh-update_above : (n i : ℕ) (f : ℕ → A) (a : A) → n ≤ i → weigh n (update f i a) ≡ weigh n f
  unfolding weigh
  weigh-update_above zero i f a h = refl
  weigh-update_above (suc n) i f a h =
      rw (==_of_ne i n (omega arith), weigh-update_above n i f a (omega arith))

  pub weigh-update :
      (n i : ℕ) (f : ℕ → A) (a : A)
      → i < n
      → weigh n (update f i a) + weight (f i) ≡ weigh n f + weight a
  unfolding weigh
  weigh-update zero i f a h = absurd (omega arith)
  weigh-update (suc n) i f a h = elim (ℕ_discrete i n) [
    | yes e ↦ ground (arith, weigh-update_above n i f a)
    | no ne ↦ rw (==_of_ne i n ne) (omega (arith, weigh-update n i f a (omega arith)))
  ]

  pub weigh-ge : (n i : ℕ) (f : ℕ → A) → i < n → weight (f i) ≤ weigh n f
  unfolding weigh
  weigh-ge zero i f h = absurd (omega arith)
  weigh-ge (suc n) i f h = elim (ℕ_discrete i n) [
    | yes e ↦ rw e (omega arith)
    | no ne ↦ omega (arith, weigh-ge n i f (omega arith))
  ]

  pub weigh-ge_two :
      (n i j : ℕ) (f : ℕ → A) → i < n → j < n → i ≢ j → weight (f i) + weight (f j) ≤ weigh n f
  unfolding weigh
  weigh-ge_two zero i j f hi hj ne = absurd (omega arith)
  weigh-ge_two (suc n) i j f hi hj ne = elim (ℕ_discrete i n) [
    | yes e ↦ rw e (omega (arith, weigh-ge n j f (omega arith)))
    | no p ↦ elim (ℕ_discrete j n) [
      | yes e ↦ rw e (omega (arith, weigh-ge n i f (omega arith)))
      | no q ↦ omega (arith, weigh-ge_two n i j f (omega arith) (omega arith) ne)
    ]
  ]

  pub weigh-eq_zero : (n : ℕ) (f : ℕ → A) → ((i : ℕ) → weight (f i) ≡ 0) → weigh n f ≡ 0
  unfolding weigh
  weigh-eq_zero zero f h = refl
  weigh-eq_zero (suc n) f h = omega (arith, h n, weigh-eq_zero n f h)
