-- ===== src/Detail/SpinLock/Handing.antt =====
-- detail/spinlock.hpp: the steps of `Acquire` behind another guard and of `Release` keep the
-- invariant.
use concurrency_library.Common.{
  ℕ, ◌+◌, ◌-◌, ◌<◌, ◌≤◌, ◌≡◌, ◌≢◌, refl, sym, ap, subst, ◌∙◌, true, none, some, update, ==_refl,
  ==_of_ne, ==_of_eq, Bool-cases, arith, ℕ_discrete, inl, inr,
}
use concurrency_library.Detail.SpinLock.{
  Pc, outside, swapping, linking, waiting, holding, releasing, handing, waking, SpinLock, enter,
}
use concurrency_library.Detail.SpinLock.Invariant.{queued, In, Good, Inv}
use concurrency_library.Detail.SpinLock.Kept.{link-Good}
use concurrency_library.Detail.SpinLock.Release.{true-ne, none-some, left-Good, woken, woken-Good}
use concurrency_library.Detail.SpinLock.Steps.{
  tail_cases, own, place_kept, others_kept, quiet-Inv, enter-Inv,
}

some_injective : {a b : ℕ} → some a ≡ some b → a ≡ b
some_injective e = cc

module _ {s : SpinLock} {pc : ℕ → Pc} (inv : Inv s pc) (i : ℕ) where
  open inv use {who, order, last, open_end, place, good}

  pub swap_first-Inv : pc i ≡ swapping none → s.tail ≡ none → Inv (enter s i) (update pc i holding)
  swap_first-Inv at nil =
      enter-Inv inv i (swapping none) at holding refl (own inv i (swapping none) at).1 refl (
        record {
          from = rw (==_refl i) order;
          below = rw (==_refl i) (omega arith);
          mine = rw (==_refl i, ==_refl s.entered) refl;
        },
        rw (==_refl i) (sym empty),
      )
    where
      empty : s.released ≡ s.entered
      empty = elim (ℕ_discrete s.released s.entered) [
        | yes e ↦ e
        | no ne ↦ absurd (
            none-some {k = who (s.entered - 1)}
              (sym nil ∙ last ∙ rw (==_of_ne s.released s.entered ne) refl))
      ]

  pub swap_behind-Inv :
      (j : ℕ)
      → pc i ≡ swapping (some j)
      → s.tail ≡ some j
      → Inv (enter s i) (update pc i (linking j))
  swap_behind-Inv j at same =
      let known = own inv i (swapping (some j)) at in
      let found = tail_cases inv (λ e. none-some (sym e ∙ same)) in
      let before : j ≡ who (s.entered - 1) = some_injective (sym same ∙ found.1) in
      enter-Inv inv i (swapping (some j)) at (linking j) refl known.1 refl (
        record {
          from = rw (==_refl i) order;
          below = rw (==_refl i) (omega arith);
          mine = rw (==_refl i, ==_refl s.entered) refl;
        },
        rw (==_refl i) found.0,
        rw (==_refl i)
            (before ∙ sym (rw (==_of_ne s.entered (s.entered - 1) (omega (arith, found.0))) refl)),
        ap s.next before ∙ open_end found.0,
        known.0,
      )

  pub link-Inv :
      (j : ℕ)
      → pc i ≡ linking j
      → Inv (record s { next = update s.next j (some i) }) (update pc i waiting)
  link-Inv j at =
      let known = own inv i (linking j) at in
      record {
        who = who;
        order = order;
        last = last;
        open_end = λ lt. rw (==_of_ne j (who (s.entered - 1)) (not_last known lt)) (open_end lt);
        place = place_kept inv i (linking j) at waiting refl;
        good =
            others_kept inv i (linking j) at (record s { next = update s.next j (some i) }) who
              waiting
              (
                record { from = known.0.from; below = known.0.below; mine = known.0.mine },
                (λ o. absurd (true-ne (sym o ∙ known.4))),
                λ o. (known.1, rw (==_of_eq j (who (s.ticket i - 1)) known.2) refl),
              )
              (λ m ne. link-Good inv i m ne j known (pc m) refl (good m));
      }
    where
      not_last : Good s who i (linking j) → s.released < s.entered → j ≢ who (s.entered - 1)
      not_last known lt e = omega (
        arith,
        (place (s.ticket i - 1) (omega (arith, known.1)) (omega (arith, known.0.below))).0,
        (place (s.entered - 1) (omega (arith, lt)) (omega (arith, lt))).0,
        ap s.ticket (sym known.2 ∙ e),
        known.1,
        known.0.below,
      )

  -- The queue has another guard behind that of `i`, which has the lock.
  more_behind : In s who i → s.ticket i ≡ s.released → s.tail ≢ some i → s.released + 1 < s.entered
  more_behind mine first ne = elim (ℕ_discrete (s.released + 1) s.entered) [
    | yes e ↦ absurd (
        ne (
          last
          ∙ rw (==_of_ne s.released s.entered (omega (arith, e)))
              (ap (λ t. some (who t)) (omega (arith, e, first)) ∙ ap some mine.mine)))
    | no ne' ↦ omega (arith, mine.below, first, ne')
  ]

  pub release_not_last-Inv : pc i ≡ releasing → s.tail ≢ some i → Inv s (update pc i handing)
  release_not_last-Inv at ne =
      let known = own inv i releasing at in
      quiet-Inv inv i releasing at handing refl (known.0, known.1, more_behind known.0 known.1 ne)

  -- Who has linked itself to the guard of `i` is the next in the queue.
  next_known :
      (k : ℕ) (p : Pc)
      → In s who i
      → s.ticket i ≡ s.released
      → s.released + 1 < s.entered
      → s.next i ≡ some k
      → s.ticket (who (s.released + 1)) ≡ s.released + 1
      → queued p ≡ true
      → Good s who (who (s.released + 1)) p
      → k ≡ who (s.released + 1)
  next_known k outside mine first more e second q h = absurd (true-ne (sym q))
  next_known k (swapping old) mine first more e second q h = absurd (true-ne (sym q))
  next_known k (linking j) mine first more e second q h = absurd (
      none-some (sym h.3 ∙ ap s.next (h.2 ∙ ap who (omega (arith, second, first)) ∙ mine.mine) ∙ e))
  next_known k waiting mine first more e second q h =
      elim (Bool-cases (s.owner (who (s.released + 1)))) [
        | inl o ↦ absurd (omega (arith, second, h.1 o))
        | inr o ↦ some_injective (
            sym e ∙ ap s.next (sym (ap who (omega (arith, second, first)) ∙ mine.mine)) ∙ (h.2 o).1)
      ]
  next_known k holding mine first more e second q h = absurd (omega (arith, second, h.1))
  next_known k releasing mine first more e second q h = absurd (omega (arith, second, h.1))
  next_known k handing mine first more e second q h = absurd (omega (arith, second, h.1))
  next_known k (waking m) mine first more e second q h = absurd (omega (arith, second, h.1))

  pub see_next-Inv : (k : ℕ) → pc i ≡ handing → s.next i ≡ some k → Inv s (update pc i (waking k))
  see_next-Inv k at e =
      let known = own inv i handing at in
      let there = place (s.released + 1) (omega arith) known.2 in
      quiet-Inv inv i handing at (waking k) refl (
        known.0,
        known.1,
        known.2,
        next_known k (pc (who (s.released + 1))) known.0 known.1 known.2 e there.0 there.1
            (good (who (s.released + 1))),
        e,
      )

  -- Behind `i`, which has the lock, the places stay when it leaves.
  place_left :
      In s who i
      → s.ticket i ≡ s.released
      → (t : ℕ) → s.released + 1 ≤ t
      → t < s.entered
      → (s.ticket (who t) ≡ t) × (queued (update pc i outside (who t)) ≡ true)
  place_left mine first t lo hi =
      let old = place t (omega (arith, lo)) hi in
      (
        old.0,
        rw (==_of_ne i (who t) (λ e. absurd (omega (arith, ap s.ticket e, old.0, first, lo))))
            old.1,
      )

  pub release_last-Inv :
      pc i ≡ releasing
      → s.tail ≡ some i
      → Inv (record s { tail = none; released = s.released + 1 }) (update pc i outside)
  release_last-Inv at same =
      let known = own inv i releasing at in
      let only = alone known in
      record {
        who = who;
        order = omega (arith, only);
        last = rw (==_of_eq (s.released + 1) s.entered (sym only)) refl;
        open_end = λ lt. absurd (omega (arith, lt, only));
        place = place_left known.0 known.1;
        good =
            others_kept inv i releasing at (record s { tail = none; released = s.released + 1 }) who
              outside tt
              (λ j ne.
                left-Good inv i known.0 known.1 none s.owner j ne refl
                  (λ h e. omega (arith, h.below, e, only)) (pc j) (good j));
      }
    where
      alone : Good s who i releasing → s.entered ≡ s.released + 1
      alone known =
          let found = tail_cases inv (λ e. none-some (sym e ∙ same)) in
          omega (
            arith,
            (place (s.entered - 1) (omega (arith, found.0)) (omega (arith, found.0))).0,
            ap s.ticket (some_injective (sym same ∙ found.1)),
            known.1,
            found.0,
          )

  pub wake-Inv :
      (k : ℕ)
      → pc i ≡ waking k
      → Inv
          (record s { owner = update s.owner k true; released = s.released + 1 })
          (update pc i outside)
  wake-Inv k at =
      let known = own inv i (waking k) at in
      record {
        who = who;
        order = omega (arith, known.2);
        last =
            last
            ∙ rw
                (
                  ==_of_ne s.released s.entered (omega (arith, known.2)),
                  ==_of_ne (s.released + 1) s.entered (omega (arith, known.2)),
                )
                refl;
        open_end = λ lt. open_end (omega (arith, known.2));
        place = place_left known.0 known.1;
        good =
            others_kept inv i (waking k) at
              (record s { owner = update s.owner k true; released = s.released + 1 }) who outside tt
              (λ j ne. elim (ℕ_discrete k j) [
                | yes e ↦
                    subst (λ m. Good (woken inv i known.0 known.1 k) who m (pc m)) e
                      (woken-Good inv i known.0 known.1 k known.2 known.3 known.4 (pc k) refl
                        (good k))
                | no off ↦
                    left-Good inv i known.0 known.1 s.tail (update s.owner k true) j ne
                      (rw (==_of_ne k j off) refl) (λ h e. off (known.3 ∙ ap who (sym e) ∙ h.mine))
                      (pc j) (good j)
              ]);
      }
