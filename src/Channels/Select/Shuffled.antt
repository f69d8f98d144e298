-- ===== src/Channels/Select/Shuffled.antt =====
-- channels/select.hpp: what `GenerateRandomPermutation` does to the channels, the awaiters and the
-- places that the awaiters know.
use concurrency_library.Common.{
  ℕ, zero, suc, ◌-◌, ◌<◌, ◌≤◌, ◌≡◌, ◌≢◌, refl, sym, ap, ◌∙◌, ◌==◌, if◌then◌else◌, ==_of_ne,
  ==_of_eq, ℕ_discrete, arith,
}
use concurrency_library.Channels.Select.{
  Arrays, initial, swap, exchange, permute, generate_random_permutation,
}

-- The places above `i` are done: their awaiters know them. Those up to `i` know their first place.
pub record Partly (k i : ℕ) (s : Arrays) : Type 0 where
  pub same : (a : ℕ) → s.channels a ≡ s.first a
  pub within : (a : ℕ) → a < k → s.first a < k
  pub apart : (a b : ℕ) → a < k → b < k → s.first a ≡ s.first b → a ≡ b
  pub known : (a : ℕ) → i < a → a < k → s.index (s.first a) ≡ a
  pub not_yet : (a : ℕ) → a ≤ i → s.index (s.first a) ≡ s.first a

module _ (k i d : ℕ) (s : Arrays) (h : Partly k (suc i) s) (lt : suc i < k) (le : d ≤ suc i) where
  -- The place whose awaiter comes to place `a`.
  source : ℕ → ℕ
  source = swap (λ a. a) (suc i) d

  exchanged : Arrays
  exchanged = exchange (suc i) d s

  first-source : (a : ℕ) → exchanged.first a ≡ s.first (source a)
  unfolding source exchanged
  first-source a = ground arith

  source-within : (a : ℕ) → a < k → source a < k
  unfolding source
  source-within a ha = ground (arith, lt, le)

  source-apart : (a b : ℕ) → source a ≡ source b → a ≡ b
  unfolding source
  source-apart a b e = ground (arith, e)

  index-exchanged : (a : ℕ) → exchanged.index a ≡ (if s.first d == a then suc i else s.index a)
  unfolding exchanged
  index-exchanged a = ground arith

  source_done : (a : ℕ) → suc i < a → source a ≡ a
  unfolding source
  source_done a above = ground (arith, le)

  source_at : source (suc i) ≡ d
  unfolding source
  source_at = ground arith

  source_below : (a : ℕ) → a ≤ i → (source a ≤ suc i) × (source a ≢ d)
  unfolding source
  source_below a below = ground (arith, le)

  known_now : (a : ℕ) → i < a → a < k → exchanged.index (exchanged.first a) ≡ a
  known_now a above ha = elim (ℕ_discrete a (suc i)) [
    | yes e ↦
        rw
          (
            index-exchanged (exchanged.first a),
            ==_of_eq (s.first d) (exchanged.first a)
                (sym (first-source a ∙ ap (λ b. s.first (source b)) e ∙ ap s.first source_at)),
          )
          (sym e)
    | no ne ↦
        let far : suc i < a = omega (arith, above, ne) in
        let same : exchanged.first a ≡ s.first a =
          first-source a ∙ ap s.first (source_done a far) in
        rw
          (
            index-exchanged (exchanged.first a),
            same,
            ==_of_ne (s.first d) (s.first a)
                (λ e. absurd (omega (arith, h.apart d a (omega (arith, le, lt)) ha e, le, far))),
          )
          (h.known a far ha)
  ]

  not_yet_now : (a : ℕ) → a ≤ i → exchanged.index (exchanged.first a) ≡ exchanged.first a
  not_yet_now a below =
      let at = source_below a below in
      rw
        (
          index-exchanged (exchanged.first a),
          first-source a,
          ==_of_ne (s.first d) (s.first (source a)) (λ e.
              at.1
                (sym (h.apart d (source a) (omega (arith, le, lt)) (omega (arith, at.0, lt)) e))),
        )
        (h.not_yet (source a) at.0)

  pub exchange-Partly : Partly k i (exchange (suc i) d s)
  unfolding exchanged
  exchange-Partly = record {
    same = λ a. ground (arith, h.same a, h.same d, h.same (suc i));
    within = λ a ha. rw (first-source a) (h.within (source a) (source-within a ha));
    apart = λ a b ha hb e. source-apart a b (
        h.apart (source a) (source b) (source-within a ha) (source-within b hb)
          (sym (first-source a) ∙ e ∙ first-source b));
    known = known_now;
    not_yet = not_yet_now;
  }

permute-Partly :
    (draw : ℕ → ℕ) (k i : ℕ) (s : Arrays)
    → ((j : ℕ) → draw j ≤ j)
    → i < k
    → Partly k i s
    → Partly k 0 (permute draw i s)
unfolding permute
permute-Partly draw k zero s fair lt h = h
permute-Partly draw k (suc i) s fair lt h =
    permute-Partly draw k i (exchange (suc i) (draw (suc i)) s) fair (omega (arith, lt))
      (exchange-Partly k i (draw (suc i)) s h lt (fair (suc i)))

-- What the arrays are after the loop.
pub record Permuted (k : ℕ) (s : Arrays) : Type 0 where
  pub matched : (a : ℕ) → s.channels a ≡ s.first a
  pub within : (a : ℕ) → a < k → s.first a < k
  pub apart : (a b : ℕ) → a < k → b < k → s.first a ≡ s.first b → a ≡ b
  pub index_above : (a : ℕ) → 0 < a → a < k → s.index (s.first a) ≡ a
  pub index_first : s.index (s.first 0) ≡ s.first 0

-- With numbers drawn at place `i` from 0 to `i`, and some channel, the awaiters after the loop of
-- `GenerateRandomPermutation` are a permutation of those before it and stand beside their own
-- channels; the awaiter at each place but 0 knows its place, and the one at place 0 knows the place
-- that it had before the loop.
pub generate_random_permutation-Permuted :
    (draw : ℕ → ℕ) (k : ℕ)
    → ((j : ℕ) → draw j ≤ j)
    → 0 < k
    → Permuted k (generate_random_permutation draw k initial)
unfolding generate_random_permutation
generate_random_permutation-Permuted draw k fair some_channel =
    let h = permute-Partly draw k (k - 1) initial fair (omega (arith, some_channel)) (record {
      same = λ a. refl;
      within = λ a ha. ha;
      apart = λ a b ha hb e. e;
      known = λ a above ha. absurd (omega (arith, above, ha));
      not_yet = λ a le. refl;
    }) in
    record {
      matched = h.same;
      within = h.within;
      apart = h.apart;
      index_above = h.known;
      index_first = h.not_yet 0 (omega arith);
    }
