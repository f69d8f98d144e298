-- ===== src/Detail/SpinLock/Kept.antt =====
-- detail/spinlock.hpp: what the other threads know survives a step of thread `i`.
use concurrency_library.Common.{
  ℕ, ◌+◌, ◌-◌, ◌<◌, ◌≤◌, ◌≡◌, ◌≢◌, refl, sym, ap, ◌∙◌, true, false, none, some, update, ==_of_ne,
  arith,
}
use concurrency_library.Detail.SpinLock.{
  Pc, outside, swapping, linking, waiting, holding, releasing, handing, waking, SpinLock, enter,
}
use concurrency_library.Detail.SpinLock.Invariant.{queued, In, Good, Inv}

module _ {s : SpinLock} {pc : ℕ → Pc} (inv : Inv s pc) (i j : ℕ) (ne : i ≢ j) where
  open inv use {who, order, last, open_end, place}

  -- `i` makes its guard anew.
  abbrev reset : SpinLock
  reset = record s { next = update s.next i none; owner = update s.owner i false }

  not_who : queued (pc i) ≡ false → (t : ℕ) → s.released ≤ t → t < s.entered → i ≢ who t
  not_who out t lo hi e =
      absurd (true-ne (sym (place t lo hi).1 ∙ ap (λ k. queued (pc k)) (sym e) ∙ out))
    where
      true-ne : true ≢ false
      true-ne = cc

  reset-In : In s who j → In reset who j
  reset-In h = record { from = h.from; below = h.below; mine = h.mine }

  pub reset-Good : queued (pc i) ≡ false → (p : Pc) → Good s who j p → Good reset who j p
  reset-Good out outside h = tt
  reset-Good out (swapping old) h = (rw (==_of_ne i j ne) h.0, rw (==_of_ne i j ne) h.1)
  reset-Good out (linking k) h =
      (reset-In h.0, h.1, h.2, ground (arith, h.3), rw (==_of_ne i j ne) h.4)
  reset-Good out waiting h = (
    reset-In h.0,
    (λ o. h.1 (ground (arith, o, ne))),
    λ o.
        let behind = h.2 (ground (arith, o, ne)) in
        (
          behind.0,
          rw
              (==_of_ne i (who (s.ticket j - 1))
                (not_who out (s.ticket j - 1) (omega (arith, behind.0)) (omega (arith, h.0.below))))
              behind.1,
        ),
  )
  reset-Good out holding h = (reset-In h.0, h.1)
  reset-Good out releasing h = (reset-In h.0, h.1)
  reset-Good out handing h = (reset-In h.0, h.1, h.2)
  reset-Good out (waking k) h = (reset-In h.0, h.1, h.2, h.3, rw (==_of_ne i j ne) h.4)

  -- `i` enters the queue.
  abbrev pub who_entered : ℕ → ℕ
  who_entered = update who s.entered i

  who_same : (t : ℕ) → t < s.entered → who_entered t ≡ who t
  who_same t lt = rw (==_of_ne s.entered t (omega (arith, lt))) refl

  ticket_same : (enter s i).ticket j ≡ s.ticket j
  ticket_same = rw (==_of_ne i j ne) refl

  enter-In : In s who j → In (enter s i) who_entered j
  enter-In h = record {
    from = rw ticket_same h.from;
    below = rw ticket_same (omega (arith, h.below));
    mine = rw ticket_same (who_same (s.ticket j) h.below ∙ h.mine);
  }

  pub enter-Good : (p : Pc) → Good s who j p → Good (enter s i) who_entered j p
  enter-Good outside h = tt
  enter-Good (swapping old) h = h
  enter-Good (linking k) h = (
    enter-In h.0,
    rw ticket_same h.1,
    rw ticket_same (h.2 ∙ sym (who_same (s.ticket j - 1) (omega (arith, h.0.below)))),
    h.3,
    h.4,
  )
  enter-Good waiting h = (
    enter-In h.0,
    (λ o. rw ticket_same (h.1 o)),
    λ o.
        let behind = h.2 o in
        rw ticket_same
          (behind.0, ap s.next (who_same (s.ticket j - 1) (omega (arith, h.0.below))) ∙ behind.1),
  )
  enter-Good holding h = (enter-In h.0, rw ticket_same h.1)
  enter-Good releasing h = (enter-In h.0, rw ticket_same h.1)
  enter-Good handing h = (enter-In h.0, rw ticket_same h.1, omega (arith, h.2))
  enter-Good (waking k) h = (
    enter-In h.0,
    rw ticket_same h.1,
    omega (arith, h.2),
    h.3 ∙ sym (who_same (s.released + 1) h.2),
    h.4,
  )

  -- `i` links itself to the guard `who (ticket - 1)` before it.
  module _ (before : ℕ) (at : Good s who i (linking before)) where
    abbrev pub linked : SpinLock
    linked = record s { next = update s.next before (some i) }

    link-In : In s who j → In linked who j
    link-In h = record { from = h.from; below = h.below; mine = h.mine }

    -- Only `i` is behind that guard.
    not_before : In s who j → s.released < s.ticket j → before ≢ who (s.ticket j - 1)
    not_before h lt e =
        let mine = place (s.ticket i - 1) (omega (arith, at.1)) (omega (arith, at.0.below)) in
        let theirs = place (s.ticket j - 1) (omega (arith, lt)) (omega (arith, h.below)) in
        absurd (
          ne (
            sym at.0.mine
            ∙ ap who (omega (arith, mine.0, theirs.0, ap s.ticket (sym at.2 ∙ e), at.1, lt))
            ∙ h.mine))

    queued_before : queued (pc before) ≡ true
    queued_before =
        ap (λ k. queued (pc k)) at.2
        ∙ (place (s.ticket i - 1) (omega (arith, at.1)) (omega (arith, at.0.below))).1

    pub link-Good : (p : Pc) → pc j ≡ p → Good s who j p → Good linked who j p
    link-Good outside here h = tt
    link-Good (swapping old) here h = (
      h.0,
      rw
          (==_of_ne before j (λ e.
            absurd (true-ne (sym queued_before ∙ ap (λ k. queued (pc k)) e ∙ ap queued here))))
          h.1,
    )
      where
        true-ne : true ≢ false
        true-ne = cc
    link-Good (linking k) here h =
        (link-In h.0, h.1, h.2, rw (==_of_ne before k (λ e. not_before h.0 h.1 (e ∙ h.2))) h.3, h.4)
    link-Good waiting here h = (
      link-In h.0,
      h.1,
      λ o.
          let behind = h.2 o in
          (
            behind.0,
            rw (==_of_ne before (who (s.ticket j - 1)) (not_before h.0 behind.0)) behind.1,
          ),
    )
    link-Good holding here h = (link-In h.0, h.1)
    link-Good releasing here h = (link-In h.0, h.1)
    link-Good handing here h = (link-In h.0, h.1, h.2)
    link-Good (waking k) here h = (
      link-In h.0,
      h.1,
      h.2,
      h.3,
      rw (==_of_ne before j (λ e. none-some (sym at.3 ∙ ap s.next e ∙ h.4))) h.4,
    )
      where
        none-some : {k : ℕ} → none ≢ some k
        none-some = cc
