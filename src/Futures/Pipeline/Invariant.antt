-- ===== src/Futures/Pipeline/Invariant.antt =====
-- futures/future.hpp and futures/promise.hpp: the invariant of a chain of futures.
use concurrency_library.Common.{
  ℕ, zero, suc, ◌+◌, ◌<◌, ◌≤◌, ◌≡◌, refl, sym, ap, ap₂, ◌∙◌, Option, none, some, [], ◌∷◌, ◌++◌,
  update, ==_refl, ==_of_ne, ==_of_eq, dec_lt, ℕ_discrete, arith,
}
use concurrency_library.Futures.Result.{Result}
use concurrency_library.Futures.Pipeline.{
  Stage, empty, value_is_set, attached, Task, Pipeline, set, set_callback, attach, feed, answer,
}

module _ {T : Type 0} where
  -- The word of a future that has no result yet, from place `from` on.
  pub record Untouched (p : Pipeline T) (from : ℕ) : Type 0 where
    pub below :
        (k : ℕ)
        → from ≤ k
        → k < p.made
        → (s : Stage T) × (p.stages k ≡ some s) × (p.word k ≡ attached s)
    pub above : (k : ℕ) → from ≤ k → p.made ≤ k → p.word k ≡ empty

  pub data Phase (p : Pipeline T) : Type 0 where
    unset : p.given ≡ none → p.tasks ≡ [] → Untouched p 0 → Phase p
    finished :
        (r : Result T)
        → p.given ≡ some r
        → p.tasks ≡ []
        → p.word p.made ≡ value_is_set
        → answer T p.stages r p.made ≡ some (p.value p.made)
        → Untouched p (p.made + 1)
        → Phase p
    busy :
        (r : Result T) (t : Task T)
        → p.given ≡ some r
        → p.tasks ≡ t ∷ []
        → t.place < p.made
        → p.stages t.place ≡ some t.stage
        → answer T p.stages r t.place ≡ some t.result
        → Untouched p (t.place + 1)
        → Phase p

  -- A callback at a later place does not change the answer.
  answer-update :
      (stages : ℕ → Option (Stage T)) (r : Result T) (m k : ℕ) (s : Option (Stage T))
      → m ≤ k
      → answer T (update stages k s) r m ≡ answer T stages r m
  unfolding answer
  answer-update stages r zero k s le = refl
  answer-update stages r (suc m) k s le =
      ap₂ (feed T) (rw (==_of_ne k m (omega (arith, le))) refl)
        (answer-update stages r m k s (omega (arith, le)))

  -- A promise whose future has no result is set.
  pub set-Phase :
      (p : Pipeline T) (k : ℕ) (r v : Result T)
      → p.given ≡ some r
      → p.tasks ≡ []
      → k ≤ p.made
      → answer T p.stages r k ≡ some v
      → Untouched p k
      → Phase (set T p k v)
  unfolding set
  set-Phase p k r v given none_left le known h = elim (dec_lt k p.made) [
    | yes lt ↦
        let there = h.below k (omega arith) lt in
        rw there.2 (
          busy r (record { place = k; result = v; stage = there.0 }) given
            (ap (λ ts. ts ++ record { place = k; result = v; stage = there.0 } ∷ []) none_left) lt
            there.1 known
            (record {
              below = λ m lo hi.
                  let old = h.below m (omega (arith, lo)) hi in
                  (old.0, old.1, rw (==_of_ne k m (omega (arith, lo))) old.2);
              above = λ m lo hi.
                  rw (==_of_ne k m (omega (arith, lo))) (h.above m (omega (arith, lo)) hi);
            }))
    | no ge ↦
        let last : k ≡ p.made = omega (arith, le, ge) in
        rw (h.above k (omega arith) (omega (arith, ge))) (
          finished r given none_left (rw (==_of_eq k p.made last) refl)
            (ap (answer T p.stages r) (sym last) ∙ known ∙ rw (==_of_eq k p.made last) refl)
            (record {
              below = λ m lo hi. absurd (omega (arith, lo, hi));
              above = λ m lo hi.
                  rw (==_of_ne k m (omega (arith, lo, le))) (h.above m (omega (arith, lo, le)) hi);
            }))
  ]

  -- A callback is attached to the last future, which has no result.
  attached_more :
      (p : Pipeline T) (s : Stage T) (from : ℕ)
      → from ≤ p.made
      → Untouched p from
      → Untouched
          (record p {
            made = p.made + 1;
            stages = update p.stages p.made (some s);
            word = update p.word p.made (attached s);
          })
          from
  attached_more p s from le h = record {
    below = λ k lo hi. elim (ℕ_discrete p.made k) [
      | yes e ↦ (s, rw (==_of_eq p.made k e) refl, rw (==_of_eq p.made k e) refl)
      | no ne ↦
          let old = h.below k lo (omega (arith, hi, ne)) in
          (old.0, rw (==_of_ne p.made k ne) old.1, rw (==_of_ne p.made k ne) old.2)
    ];
    above =
        λ k lo hi. rw (==_of_ne p.made k (omega (arith, hi))) (h.above k lo (omega (arith, hi)));
  }

  pub attach-Phase : (p : Pipeline T) (s : Stage T) → Phase p → Phase (attach T p s)
  unfolding attach set_callback
  attach-Phase p s (unset given none_left h) =
      rw (h.above p.made (omega arith) (omega arith))
        (unset given none_left (attached_more p s 0 (omega arith) h))
  attach-Phase p s (finished r given none_left last known h) = rw last (
      busy r (record { place = p.made; result = p.value p.made; stage = s }) given
        (ap (λ ts. ts ++ record { place = p.made; result = p.value p.made; stage = s } ∷ [])
          none_left)
        (omega arith) (rw (==_refl p.made) refl)
        (answer-update p.stages r p.made p.made (some s) (omega arith) ∙ known)
        (record {
          below = λ k lo hi. absurd (omega (arith, lo, hi));
          above = λ k lo hi.
              rw (==_of_ne p.made k (omega (arith, lo))) (h.above k lo (omega (arith, lo)));
        }))
  attach-Phase p s (busy r t given one_left lt stage known h) =
      rw (h.above p.made (omega (arith, lt)) (omega arith)) (
        busy r t given one_left (omega (arith, lt))
          (rw (==_of_ne p.made t.place (omega (arith, lt))) stage)
          (answer-update p.stages r t.place p.made (some s) (omega (arith, lt)) ∙ known)
          (attached_more p s (t.place + 1) (omega (arith, lt)) h))
