-- ===== src/Futures/FirstOf/Winner.antt =====
-- futures/api/first_of.hpp: the promise of `FirstOf` is set once, by the first that counts down.
use concurrency_library.Common.{
  ℕ, zero, suc, ◌+◌, ◌-◌, ◌<◌, ◌≤◌, ◌≡◌, ◌≢◌, refl, sym, ap, subst, ◌∙◌, ◌==◌, ==_refl, ==_of_ne,
  ==_of_eq, List, [], ◌∷◌, Option, none, some, update, if◌then◌else◌, arith, weigh, weigh-update,
  weigh-ge, weigh-eq_zero, ℕ_discrete,
}
use concurrency_library.Futures.FirstOf.{
  Outcome, Pc, waiting, loaded, counted, undefined, winner, last_one, done, FirstOfPromise, Move,
  load, fetch_sub, use_after_free, is_first, is_last, is_other, set, delete_record, System, step,
  Reach, here, next,
}

-- A callback that has not counted down, the first, and the last.
abbrev pub counting : Pc → ℕ
counting waiting = 1
counting loaded = 1
counting _ = 0

-- The first to count down, until it has set the promise, and the last, until it has deleted the
-- record.
abbrev pub winning : ℕ → Pc → ℕ
winning n winner = 1
winning n (counted c) = if c == n then 1 else 0
winning n (undefined c) = if c == n then 1 else 0
winning n _ = 0

abbrev pub ends : ℕ → ℕ → ℕ
ends n c = if c == n then 0 else (if c == 1 then 1 else 0)

abbrev pub ending : ℕ → Pc → ℕ
ending n last_one = 1
ending n (counted c) = ends n c
ending n (undefined c) = ends n c
ending n _ = 0

-- There is a callback that will be the last and not also the first.
abbrev pub to_end : ℕ → ℕ → ℕ
to_end n k = if n == 1 then 0 else (if k == 0 then 0 else 1)

-- What the promise must have been set to, if the first to count down was `first`.
abbrev pub answer : (ℕ → Outcome) → Option ℕ → List Outcome
answer outcome none = []
answer outcome (some i) = outcome i ∷ []

weigh-waiting : (n : ℕ) → weigh counting n (λ _. waiting) ≡ n
unfolding weigh
weigh-waiting zero = refl
weigh-waiting (suc n) = omega (arith, weigh-waiting n)

weigh-done :
    (weight : Pc → ℕ) (n : ℕ) (pc : ℕ → Pc)
    → weight done ≡ 0
    → ((i : ℕ) → i < n → pc i ≡ done)
    → weigh weight n pc ≡ 0
unfolding weigh
weigh-done weight zero pc z h = refl
weigh-done weight (suc n) pc z h = omega (
  arith,
  ap weight (h n (omega arith)),
  z,
  weigh-done weight n pc z (λ i lt. h i (omega (arith, lt))),
)

module _ (n : ℕ) (outcome : ℕ → Outcome) where
  record Inv (s : FirstOfPromise) (pc : ℕ → Pc) : Type 0 where
    tally : s.count ≡ weigh counting n pc
    below : s.count ≤ n
    one_winner : weigh (winning n) n pc + s.promise_deletions + (if s.count == n then 1 else 0) ≡ 1
    one_end : weigh (ending n) n pc + s.deletions + to_end n s.count ≡ to_end n n
    first_ok : (i : ℕ) → i < n → winning n (pc i) ≡ 1 → s.first ≡ some i
    chosen : s.count ≢ n → (i : ℕ) × (i < n) × (s.first ≡ some i)
    sets_of : s.sets ≡ (if s.promise_deletions == 0 then [] else answer outcome s.first)

  module _ {s : FirstOfPromise} {pc : ℕ → Pc} (inv : Inv s pc) (i : ℕ) (lt : i < n) where
    open inv use {tally, below, one_winner, one_end, first_ok, chosen, sets_of}

    -- How the weights change when callback `i` goes from `p` to `p'`.
    record Mover (p p' : Pc) : Type 0 where
      counters : weigh counting n (update pc i p') + counting p ≡ weigh counting n pc + counting p'
      winners :
          weigh (winning n) n (update pc i p') + winning n p ≡ weigh (winning n) n pc + winning n p'
      enders :
          weigh (ending n) n (update pc i p') + ending n p ≡ weigh (ending n) n pc + ending n p'
      counter : counting p ≤ weigh counting n pc
      won : winning n p ≤ weigh (winning n) n pc
      ended : ending n p ≤ weigh (ending n) n pc
      first : winning n p ≡ 1 → s.first ≡ some i

    mover : (p' : Pc) → Mover (pc i) p'
    mover p' = record {
      counters = weigh-update counting n i pc p' lt;
      winners = weigh-update (winning n) n i pc p' lt;
      enders = weigh-update (ending n) n i pc p' lt;
      counter = weigh-ge counting n i pc lt;
      won = weigh-ge (winning n) n i pc lt;
      ended = weigh-ge (ending n) n i pc lt;
      first = first_ok i lt;
    }

    -- Callback `i` moves on, and the first stays.
    first_kept :
        (p : Pc)
        → (winning n p ≡ 1 → s.first ≡ some i)
        → (j : ℕ) → j < n
        → winning n (update pc i p j) ≡ 1
        → s.first ≡ some j
    first_kept p at j lt' = elim (ℕ_discrete i j) [
      | yes same ↦
          rw same (rw (==_refl j) (subst (λ k. winning n p ≡ 1 → s.first ≡ some k) same at))
      | no ne ↦ rw (==_of_ne i j ne) (first_ok j lt')
    ]

    -- Callback `i` counts down: it is the first, or the first stays.
    first_counted :
        (j : ℕ)
        → j < n
        → winning n (update pc i (counted s.count) j) ≡ 1
        → (if s.count == n then some i else s.first) ≡ some j
    first_counted j lt' = elim (ℕ_discrete s.count n) [
      | yes e ↦ elim (ℕ_discrete i j) [
        | yes same ↦ (λ h. rw (==_of_eq s.count n e) (ap some same))
        | no ne ↦ (λ h. absurd (taken_twice e ne h))
      ]
      | no ne ↦ (λ h.
          rw (==_of_ne s.count n ne)
            (first_kept (counted s.count) (λ w. absurd (ground (arith, w, ne))) j lt' h))
    ]
      where
        fresh : s.count ≡ n → weigh (winning n) n pc ≡ 0
        fresh e = ground (arith, one_winner, e)

        taken_twice : s.count ≡ n → i ≢ j → winning n (update pc i (counted s.count) j) ≡ 1 → ⊥
        taken_twice e ne h = omega (
          arith,
          fresh e,
          weigh-ge (winning n) n j pc lt',
          subst (λ b. winning n (if b then counted s.count else pc j) ≡ 1) (==_of_ne i j ne) h,
        )

    chosen_counted :
        (s.count - 1) ≢ n
        → (k : ℕ) × (k < n) × ((if s.count == n then some i else s.first) ≡ some k)
    chosen_counted h = elim (ℕ_discrete s.count n) [
      | yes e ↦ (i, lt, rw (==_of_eq s.count n e) refl)
      | no ne ↦ rw (==_of_ne s.count n ne) (chosen ne)
    ]

    sets_counted : s.sets ≡ (
        if s.promise_deletions == 0
        then []
        else answer outcome (if s.count == n then some i else s.first))
    sets_counted = elim (ℕ_discrete s.count n) [
      | yes e ↦ sets_of ∙ rw (nobody e) refl
      | no ne ↦ rw (==_of_ne s.count n ne) sets_of
    ]
      where
        nobody : s.count ≡ n → s.promise_deletions ≡ 0
        nobody e = ground (arith, one_winner, e)

    unset : 1 ≤ weigh (winning n) n pc → s.promise_deletions ≡ 0
    unset h = omega (arith, one_winner)

    -- A step that changes neither the count nor what the promise is set to.
    stays :
        (t : FirstOfPromise) (p : Pc)
        → t.count ≡ s.count
        → t.first ≡ s.first
        → t.sets ≡ s.sets
        → t.promise_deletions ≡ s.promise_deletions
        → weigh counting n (update pc i p) ≡ weigh counting n pc
        → weigh (winning n) n (update pc i p) ≡ weigh (winning n) n pc
        → weigh (ending n) n (update pc i p) + t.deletions ≡ weigh (ending n) n pc + s.deletions
        → (winning n p ≡ 1 → s.first ≡ some i)
        → Inv t (update pc i p)
    stays t p same_count same_first same_sets same_deletions wc ww we at = record {
      tally = omega (arith, tally, same_count, wc);
      below = omega (arith, below, same_count);
      one_winner = rw (same_count, same_deletions, ww) one_winner;
      one_end = rw same_count (omega (arith, one_end, we));
      first_ok = rw same_first (first_kept p at);
      chosen = rw (same_count, same_first) chosen;
      sets_of = rw (same_sets, same_deletions, same_first) sets_of;
    }

    Move-Inv :
        {p p' : Pc} {t : FirstOfPromise}
        → Move n outcome s i p t p'
        → Mover p p'
        → Inv t (update pc i p')
    Move-Inv load m =
        stays _ loaded refl refl refl refl (omega (arith, m.counters)) (omega (arith, m.winners))
          (omega (arith, m.enders)) (λ h. absurd (omega (arith, h)))
    Move-Inv fetch_sub m = record {
      tally = omega (arith, tally, m.counters);
      below = omega (arith, below);
      one_winner = ground (arith, one_winner, m.winners, m.counter, tally, below);
      one_end = ground (arith, one_end, m.enders, m.counter, tally, below);
      first_ok = first_counted;
      chosen = chosen_counted;
      sets_of = sets_counted;
    }
    Move-Inv (use_after_free {c} freed) m =
        stays _ (undefined c) refl refl refl refl (omega (arith, m.counters))
          (omega (arith, m.winners)) (omega (arith, m.enders)) m.first
    Move-Inv (is_first {c} kept e) m =
        let won : winning n (counted c) ≡ 1 = ground (arith, e) in
        let goes_on : ends n c ≡ 0 = ground (arith, e) in
        stays _ winner refl refl refl refl (omega (arith, m.counters))
          (omega (arith, m.winners, won)) (omega (arith, m.enders, goes_on)) (λ h. m.first won)
    Move-Inv (is_last {c} kept ne e) m =
        let lost : winning n (counted c) ≡ 0 = ground (arith, ne) in
        let last : ends n c ≡ 1 = ground (arith, ne, e) in
        stays _ last_one refl refl refl refl (omega (arith, m.counters))
          (omega (arith, m.winners, lost)) (omega (arith, m.enders, last))
          (λ h. absurd (omega (arith, h)))
    Move-Inv (is_other {c} kept ne ne') m =
        let lost : winning n (counted c) ≡ 0 = ground (arith, ne) in
        let goes_on : ends n c ≡ 0 = ground (arith, ne, ne') in
        stays _ done refl refl refl refl (omega (arith, m.counters))
          (omega (arith, m.winners, lost)) (omega (arith, m.enders, goes_on))
          (λ h. absurd (omega (arith, h)))
    Move-Inv set m = record {
      tally = omega (arith, tally, m.counters);
      below = below;
      one_winner = omega (arith, one_winner, m.winners);
      one_end = omega (arith, one_end, m.enders);
      first_ok = first_kept done (λ h. absurd (omega (arith, h)));
      chosen = chosen;
      sets_of = rw (sets_of, unset m.won, m.first refl) refl;
    }
    Move-Inv delete_record m =
        stays _ done refl refl refl refl (omega (arith, m.counters)) (omega (arith, m.winners))
          (omega (arith, m.enders)) (λ h. absurd (omega (arith, h)))

  Reach-Inv : {s : System n outcome} → Reach n outcome s → Inv s.shared s.pc
  Reach-Inv here = record {
    tally = sym (weigh-waiting n);
    below = omega arith;
    one_winner =
        rw (==_refl n) (omega (arith, weigh-eq_zero (winning n) n (λ _. waiting) (λ i. refl)));
    one_end = omega (arith, weigh-eq_zero (ending n) n (λ _. waiting) (λ i. refl));
    first_ok = λ i lt h. absurd (omega (arith, h));
    chosen = λ ne. absurd (ne refl);
    sets_of = refl;
  }
  Reach-Inv (next r (step i lt mv)) = let h = Reach-Inv r in Move-Inv h i lt mv (mover h i lt _)

  -- Once all callbacks of `FirstOf` of at least one future are done, in any interleaving, so that
  -- none has read the count of futures from the record after it was deleted: the promise has been
  -- set and deleted once, to the result of the callback that was the first to count down; the
  -- shared record has been deleted once, except that with a single future it never is.
  pub first_of_done :
      {s : System n outcome}
      → Reach n outcome s
      → 0 < n
      → ((i : ℕ) → i < n → s.pc i ≡ done)
      → (i : ℕ) × (i < n)
        × (s.shared.first ≡ some i)
        × (s.shared.sets ≡ outcome i ∷ [])
        × (s.shared.promise_deletions ≡ 1)
        × (s.shared.deletions ≡ (if n == 1 then 0 else 1))
  first_of_done {s} r some_future all_done =
      let h = Reach-Inv r in
      let none_left : s.shared.count ≡ 0 =
        omega (arith, h.tally, weigh-done counting n s.pc refl all_done) in
      let one : s.shared.promise_deletions ≡ 1 = ground (
        arith,
        h.one_winner,
        none_left,
        weigh-done (winning n) n s.pc refl all_done,
        some_future,
      ) in
      let (i, lt, e) = h.chosen (omega (arith, none_left, some_future)) in
      (
        i,
        lt,
        e,
        h.sets_of ∙ rw (one, e) refl,
        one,
        ground
            (arith, h.one_end, none_left, weigh-done (ending n) n s.pc refl all_done, some_future),
      )
