-- ===== src/Detail/SpinLock/Steps.antt =====
-- detail/spinlock.hpp: every step keeps the invariant.
use concurrency_library.Common.{
  ℕ, ◌+◌, ◌-◌, ◌<◌, ◌≤◌, ◌≡◌, ◌≢◌, refl, sym, ap, subst, ◌∙◌, true, false, none, some, update,
  ==_refl, ==_of_ne, ==_of_eq, arith, ℕ_discrete,
}
use concurrency_library.Detail.SpinLock.{Pc, swapping, SpinLock, enter}
use concurrency_library.Detail.SpinLock.Invariant.{queued, Good, Inv}
use concurrency_library.Detail.SpinLock.Kept.{reset-Good, enter-Good}
use concurrency_library.Detail.SpinLock.Release.{true-ne}

-- What the last guard of the queue says.
pub tail_cases :
    {s : SpinLock} {pc : ℕ → Pc} (inv : Inv s pc)
    → s.tail ≢ none
    → (s.released < s.entered) × (s.tail ≡ some (inv.who (s.entered - 1)))
tail_cases {s} inv ne = elim (ℕ_discrete s.released s.entered) [
  | yes e ↦ absurd (ne (inv.last ∙ rw (==_of_eq s.released s.entered e) refl))
  | no ne' ↦ (omega (arith, inv.order, ne'), inv.last ∙ rw (==_of_ne s.released s.entered ne') refl)
]

-- Thread `i` moves from `a`; the threads and their places stay but for it.
module _ {s : SpinLock} {pc : ℕ → Pc} (inv : Inv s pc) (i : ℕ) (a : Pc) (at : pc i ≡ a) where
  open inv use {who, order, last, open_end, place, good}

  pub own : Good s who i a
  own = subst (Good s who i) at (good i)

  -- The threads in the queue stay there.
  pub place_kept :
      (b : Pc)
      → queued b ≡ queued a
      → (t : ℕ) → s.released ≤ t
      → t < s.entered
      → (s.ticket (who t) ≡ t) × (queued (update pc i b (who t)) ≡ true)
  place_kept b same t lo hi = (
    (place t lo hi).0,
    elim (ℕ_discrete i (who t)) [
      | yes e ↦ rw (sym e) (
          rw (==_refl i)
            (same ∙ ap queued (sym at) ∙ ap (λ k. queued (pc k)) e ∙ (place t lo hi).1))
      | no ne ↦ rw (==_of_ne i (who t) ne) (place t lo hi).1
    ],
  )

  pub others_kept :
      (t : SpinLock) (w : ℕ → ℕ) (b : Pc)
      → Good t w i b
      → ((j : ℕ) → i ≢ j → Good t w j (pc j))
      → (j : ℕ) → Good t w j (update pc i b j)
  others_kept t w b self others j = elim (ℕ_discrete i j) [
    | yes e ↦ rw (sym e) (rw (==_refl i) self)
    | no ne ↦ rw (==_of_ne i j ne) (others j ne)
  ]

  -- A step that changes nothing but where `i` stands.
  pub quiet-Inv : (b : Pc) → queued b ≡ queued a → Good s who i b → Inv s (update pc i b)
  quiet-Inv b same self = record {
    who = who;
    order = order;
    last = last;
    open_end = open_end;
    place = place_kept b same;
    good = others_kept s who b self (λ j ne. good j);
  }

  pub load_tail-Inv :
      queued a ≡ false
      → Inv
          (record s { next = update s.next i none; owner = update s.owner i false })
          (update pc i (swapping s.tail))
  load_tail-Inv out = record {
    who = who;
    order = order;
    last = last;
    open_end = λ lt. ground (arith, open_end lt);
    place = place_kept (swapping s.tail) (sym out);
    good =
        others_kept (record s { next = update s.next i none; owner = update s.owner i false }) who
          (swapping s.tail) (rw (==_refl i) (refl, refl))
          (λ j ne. reset-Good inv i j ne (ap queued at ∙ out) (pc j) (good j));
  }

  pub enter-Inv :
      (b : Pc)
      → queued a ≡ false
      → s.next i ≡ none
      → queued b ≡ true
      → Good (enter s i) (update who s.entered i) i b
      → Inv (enter s i) (update pc i b)
  enter-Inv b out no_next inside self = record {
    who = update who s.entered i;
    order = omega (arith, order);
    last =
        rw (==_of_ne s.released (s.entered + 1) (omega (arith, order)))
          (ap some (sym (at_end (s.entered + 1 - 1) (omega arith))));
    open_end = λ lt. ap s.next (at_end (s.entered + 1 - 1) (omega arith)) ∙ no_next;
    place = placed;
    good =
        others_kept (enter s i) (update who s.entered i) b self
          (λ j ne. enter-Good inv i j ne (pc j) (good j));
  }
    where
      at_end : (t : ℕ) → t ≡ s.entered → update who s.entered i t ≡ i
      at_end t e = rw (==_of_eq s.entered t (sym e)) refl

      placed :
          (t : ℕ)
          → s.released ≤ t
          → t < s.entered + 1
          → ((enter s i).ticket (update who s.entered i t) ≡ t)
            × (queued (update pc i b (update who s.entered i t)) ≡ true)
      placed t lo hi = elim (ℕ_discrete s.entered t) [
        | yes e ↦ rw (at_end t (sym e), ==_refl i) (e, inside)
        | no ne ↦
            let old = place t lo (omega (arith, hi, ne)) in
            let off : i ≢ who t =
              λ e. true-ne (sym old.1 ∙ ap (λ k. queued (pc k)) (sym e) ∙ ap queued at ∙ out) in
            rw (==_of_ne s.entered t ne, ==_of_ne i (who t) off) old
      ]
