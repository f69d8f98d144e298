-- ===== src/Detail/SpinLock/Release.antt =====
-- detail/spinlock.hpp: what the other threads know survives a release by thread `i`.
use concurrency_library.Common.{
  ℕ, ◌+◌, ◌<◌, ◌≡◌, ◌≢◌, refl, sym, ap, ◌∙◌, Bool, true, false, Option, none, some, update, ==_refl,
  arith,
}
use concurrency_library.Detail.SpinLock.{
  Pc, outside, swapping, linking, waiting, holding, releasing, handing, waking, SpinLock,
}
use concurrency_library.Detail.SpinLock.Invariant.{queued, In, Good, Inv}

pub true-ne : true ≢ false
true-ne = cc

pub none-some : {k : ℕ} → none ≢ some k
none-some = cc

module _ {s : SpinLock} {pc : ℕ → Pc} (inv : Inv s pc) (i : ℕ) where
  open inv use {who, place}

  module _ (mine : In s who i) (first : s.ticket i ≡ s.released) where
    not_first : (j : ℕ) → i ≢ j → In s who j → s.ticket j ≢ s.released
    not_first j ne h e = ne (sym mine.mine ∙ ap who (first ∙ sym e) ∙ h.mine)

    module _ (tl : Option ℕ) (ow : ℕ → Bool) (j : ℕ) (ne : i ≢ j) (kept : ow j ≡ s.owner j) where
      abbrev pub left : SpinLock
      left = record s { tail = tl; owner = ow; released = s.released + 1 }

      left-In : In s who j → In left who j
      left-In h = record {
        from = omega (arith, h.from, not_first j ne h);
        below = h.below;
        mine = h.mine;
      }

      -- It is not the next in the queue.
      pub left-Good :
          (In s who j → s.ticket j ≢ s.released + 1) → (p : Pc) → Good s who j p → Good left who j p
      left-Good far outside h = tt
      left-Good far (swapping old) h = (kept ∙ h.0, h.1)
      left-Good far (linking k) h = (left-In h.0, omega (arith, h.1, far h.0), h.2, h.3, kept ∙ h.4)
      left-Good far waiting h = (
        left-In h.0,
        (λ o. absurd (not_first j ne h.0 (h.1 (sym kept ∙ o)))),
        λ o. let behind = h.2 (sym kept ∙ o) in (omega (arith, behind.0, far h.0), behind.1),
      )
      left-Good far holding h = absurd (not_first j ne h.0 h.1)
      left-Good far releasing h = absurd (not_first j ne h.0 h.1)
      left-Good far handing h = absurd (not_first j ne h.0 h.1)
      left-Good far (waking k) h = absurd (not_first j ne h.0 h.1)

    -- The next in the queue is woken.
    abbrev pub woken : ℕ → SpinLock
    woken k = record s { owner = update s.owner k true; released = s.released + 1 }

    pub woken-Good :
        (k : ℕ)
        → s.released + 1 < s.entered
        → k ≡ who (s.released + 1)
        → s.next i ≡ some k
        → (p : Pc) → pc k ≡ p
        → Good s who k p
        → Good (woken k) who k p
    woken-Good k more e link p at h = go p (ap queued (sym at) ∙ there) h
      where
        second : s.ticket k ≡ s.released + 1
        second = ap s.ticket e ∙ (place (s.released + 1) (omega arith) more).0

        there : queued (pc k) ≡ true
        there = ap (λ k. queued (pc k)) e ∙ (place (s.released + 1) (omega arith) more).1

        go : (p : Pc) → queued p ≡ true → Good s who k p → Good (woken k) who k p
        go outside q h = absurd (true-ne (sym q))
        go (swapping old) q h = absurd (true-ne (sym q))
        go (linking j) q h = absurd (
            none-some (
              sym h.3 ∙ ap s.next (h.2 ∙ ap who (omega (arith, second, first)) ∙ mine.mine) ∙ link))
        go waiting q h = (
          record { from = omega (arith, second); below = h.0.below; mine = h.0.mine },
          (λ _. second),
          λ o. absurd (true-ne (sym (rw (==_refl k) refl) ∙ o)),
        )
        go holding q h = absurd (omega (arith, second, h.1))
        go releasing q h = absurd (omega (arith, second, h.1))
        go handing q h = absurd (omega (arith, second, h.1))
        go (waking m) q h = absurd (omega (arith, second, h.1))
