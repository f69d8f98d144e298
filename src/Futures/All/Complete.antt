-- ===== src/Futures/All/Complete.antt =====
-- futures/api/all.hpp: the promise of `All` is set once, when the last result is there.
use concurrency_library.Common.{
  ℕ, zero, suc, ◌+◌, ◌<◌, ◌≤◌, ◌≡◌, ◌≢◌, refl, sym, ap, subst, ◌∙◌, ◌==◌, ==_refl, ==_of_ne, List,
  [], ◌∷◌, Option, update, if◌then◌else◌, arith, weigh, weigh-update, weigh-ge, weigh-eq_zero,
  ℕ_discrete,
}
use concurrency_library.Futures.Result.{Result, try_set}
use concurrency_library.Futures.All.{
  Value, Pc, waiting, stored, last_one, done, VectorPromise, collect, Move, store, count_down,
  count_last, complete, System, step, Reach, here, next,
}

-- A callback that has not counted down, and one that is to complete the promise.
abbrev pub counting : Pc → ℕ
counting waiting = 1
counting stored = 1
counting _ = 0

abbrev pub completing : Pc → ℕ
completing last_one = 1
completing _ = 0

abbrev pub alive : ℕ → ℕ
alive k = if k == 0 then 0 else 1

abbrev Has : Pc → Result Value → Result Value → Type 0
Has waiting v r = Unit {0}
Has _ v r = v ≡ r

Has-same : (p : Pc) (v r : Result Value) → v ≡ r → Has p v r
Has-same waiting v r e = tt
Has-same stored v r e = e
Has-same last_one v r e = e
Has-same done v r e = e

Has-value : (p : Pc) (v r : Result Value) → counting p ≡ 0 → Has p v r → v ≡ r
Has-value waiting v r c h = absurd (omega arith)
Has-value stored v r c h = h
Has-value last_one v r c h = h
Has-value done v r c h = h

collect-same :
    (f g : ℕ → Result Value) (i left : ℕ)
    → ((j : ℕ) → j < i + left → f j ≡ g j)
    → collect f i left ≡ collect g i left
unfolding collect
collect-same f g i zero h = refl
collect-same f g i (suc left) h =
    rw (h i (omega arith), collect-same f g (i + 1) left (λ j lt. h j (omega arith))) refl

weigh-waiting : (n : ℕ) → weigh counting n (λ _. waiting) ≡ n
unfolding weigh
weigh-waiting zero = refl
weigh-waiting (suc n) = omega (arith, weigh-waiting n)

weigh-done :
    (weight : Pc → ℕ) (n : ℕ) (pc : ℕ → Pc)
    → weight done ≡ 0
    → ((i : ℕ) → i < n → pc i ≡ done)
    → weigh weight n pc ≡ 0
unfolding weigh
weigh-done weight zero pc z h = refl
weigh-done weight (suc n) pc z h = omega (
  arith,
  ap weight (h n (omega arith)),
  z,
  weigh-done weight n pc z (λ i lt. h i (omega (arith, lt))),
)

not_done : (p : Pc) → p ≢ done → counting p + completing p ≡ 1
not_done waiting h = refl
not_done stored h = refl
not_done last_one h = refl
not_done done h = absurd (h refl)

-- What the promise of `All` must be set to.
abbrev pub answer : ℕ → (ℕ → Result Value) → Option (Result (List Value))
answer n outcome = try_set (collect outcome 0 n)

module _ (n : ℕ) (outcome : ℕ → Result Value) where
  record Inv (s : VectorPromise) (pc : ℕ → Pc) : Type 0 where
    counted : s.count ≡ weigh counting n pc
    balanced : weigh completing n pc + s.deletions + alive s.count ≡ alive n
    values : (i : ℕ) → Has (pc i) (s.promise_value i) (outcome i)
    sets_of : s.sets ≡ (if s.deletions == 0 then [] else answer n outcome ∷ [])

  -- A callback moves on, and its value stays or is its result.
  values-update :
      (s : VectorPromise) (pc : ℕ → Pc) (i : ℕ) (p : Pc) (f : ℕ → Result Value)
      → ((j : ℕ) → Has (pc j) (s.promise_value j) (outcome j))
      → Has p (f i) (outcome i)
      → ((j : ℕ) → i ≢ j → f j ≡ s.promise_value j)
      → (j : ℕ) → Has (update pc i p j) (f j) (outcome j)
  values-update s pc i p f h at rest j = elim (ℕ_discrete i j) [
    | yes e ↦ rw e (rw (==_refl j) (subst (λ j. Has p (f j) (outcome j)) e at))
    | no ne ↦ rw (==_of_ne i j ne, rest j ne) (h j)
  ]

  module _ {s : VectorPromise} {pc : ℕ → Pc} (inv : Inv s pc) (i : ℕ) (lt : i < n) where
    open inv use {counted, balanced, values, sets_of}

    -- How the weights change when callback `i` goes from `p` to `p'`.
    record Mover (p p' : Pc) : Type 0 where
      counters : weigh counting n (update pc i p') + counting p ≡ weigh counting n pc + counting p'
      completers :
          weigh completing n (update pc i p') + completing p ≡ weigh completing n pc + completing p'
      counter : counting p ≤ weigh counting n pc
      completer : completing p ≤ weigh completing n pc
      has : Has p (s.promise_value i) (outcome i)

    mover : (p' : Pc) → Mover (pc i) p'
    mover p' = record {
      counters = weigh-update counting n i pc p' lt;
      completers = weigh-update completing n i pc p' lt;
      counter = weigh-ge counting n i pc lt;
      completer = weigh-ge completing n i pc lt;
      has = values i;
    }

    -- Once the count is 0, every result is in its place.
    all_values : s.count ≡ 0 → (j : ℕ) → j < n → s.promise_value j ≡ outcome j
    all_values z j lt' =
        Has-value (pc j) (s.promise_value j) (outcome j)
          (omega (arith, counted, weigh-ge counting n j pc lt')) (values j)

    Move-Inv :
        {p p' : Pc} {t : VectorPromise}
        → Move n outcome s i p t p'
        → Mover p p'
        → Inv t (update pc i p')
    Move-Inv store m = record {
      counted = omega (arith, counted, m.counters);
      balanced = omega (arith, balanced, m.completers);
      values =
          values-update s pc i stored (update s.promise_value i (outcome i)) values
            (rw (==_refl i) refl) (λ j ne. rw (==_of_ne i j ne) refl);
      sets_of = sets_of;
    }
    Move-Inv (count_down ne) m = record {
      counted = omega (arith, counted, m.counters);
      balanced = ground (arith, balanced, m.completers, m.counter, counted);
      values = values-update s pc i done s.promise_value values m.has (λ j ne. refl);
      sets_of = sets_of;
    }
    Move-Inv (count_last e) m = record {
      counted = omega (arith, counted, m.counters);
      balanced = ground (arith, balanced, m.completers, m.counter, counted);
      values = values-update s pc i last_one s.promise_value values m.has (λ j ne. refl);
      sets_of = sets_of;
    }
    Move-Inv complete m =
        let none_yet : s.deletions ≡ 0 = ground (arith, balanced, m.completer) in
        let last : s.count ≡ 0 = ground (arith, balanced, m.completer) in
        record {
          counted = omega (arith, counted, m.counters);
          balanced = omega (arith, balanced, m.completers, m.completer);
          values = values-update s pc i done s.promise_value values m.has (λ j ne. refl);
          sets_of =
              rw
                (
                  sets_of,
                  none_yet,
                  collect-same s.promise_value outcome 0 n
                      (λ j lt'. all_values last j (omega (arith, lt'))),
                )
                refl;
        }

  Reach-Inv : {s : System n outcome} → Reach n outcome s → Inv s.shared s.pc
  Reach-Inv here = record {
    counted = sym (weigh-waiting n);
    balanced = omega (arith, weigh-eq_zero completing n (λ _. waiting) (λ i. refl));
    values = λ i. tt;
    sets_of = refl;
  }
  Reach-Inv (next r (step i lt mv)) = let h = Reach-Inv r in Move-Inv h i lt mv (mover h i lt _)

  -- In every interleaving of the callbacks of `All`: its promise is set at most once, to what the
  -- results give in the order of the futures, and the shared promise is deleted at most once and
  -- not while a callback is not done.
  pub set_at_most_once :
      {s : System n outcome}
      → Reach n outcome s
      → (s.shared.sets ≡ (if s.shared.deletions == 0 then [] else answer n outcome ∷ []))
        × (s.shared.deletions ≤ 1)
        × ((i : ℕ) → i < n → s.pc i ≢ done → s.shared.deletions ≡ 0)
  set_at_most_once {s} r =
      let h = Reach-Inv r in
      (
        h.sets_of,
        ground (arith, h.balanced),
        λ i lt ne. ground (
          arith,
          h.balanced,
          h.counted,
          weigh-ge counting n i s.pc lt,
          weigh-ge completing n i s.pc lt,
          not_done (s.pc i) ne,
        ),
      )

  -- Once all callbacks of `All` of at least one future are done, in any interleaving, its promise
  -- has been set once, to what the loop over the results gives, and the shared promise has been
  -- deleted once.
  pub completed_once :
      {s : System n outcome}
      → Reach n outcome s
      → 0 < n
      → ((i : ℕ) → i < n → s.pc i ≡ done)
      → (s.shared.sets ≡ answer n outcome ∷ []) × (s.shared.deletions ≡ 1)
  completed_once {s} r some_future all_done =
      let h = Reach-Inv r in
      let one : s.shared.deletions ≡ 1 = ground (
        arith,
        h.balanced,
        h.counted,
        weigh-done counting n s.pc refl all_done,
        weigh-done completing n s.pc refl all_done,
        some_future,
      ) in
      (h.sets_of ∙ rw one refl, one)
