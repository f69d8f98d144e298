-- ===== src/Fibers/Mutex/Kept.antt =====
-- fibers/sync/mutex.hpp: every step keeps the invariant of the mutex.
use concurrency_library.Common.{
  ℕ, ◌+◌, ◌<◌, ◌≤◌, ◌≡◌, ◌≢◌, refl, sym, ap, subst, ◌∙◌, true, false, none, List, [], ◌∷◌, ◌++◌,
  update, has, Distinct, append_assoc, append-nil, ==_refl, ==_of_ne, arith, weigh, weigh-update,
  weigh-ge, weigh-ge_two, weigh-eq_zero, ℕ_discrete, dec_lt, inl, inr, ◌||◌, Distinct-append,
  Disjoint-one,
}
use concurrency_library.Fibers.Mutex.{
  Pc, outside, locking, testing, suspending, suspended, scheduled, owner, unlocking, releasing,
  Mutex, Move, call_lock, lock_spin, close, enqueue, suspend, wake, wake_early, mark, call_unlock,
  unlock_spin, open_up, System, step, hand_over, Reach, here, next,
}
use concurrency_library.Fibers.Mutex.Invariant.{
  spins, owns, waits, held, bit, Inv, held_le, bit_le, true-ne, waits_cases, has-snoc,
}

module _ {n : ℕ} {s : Mutex} {pc : ℕ → Pc} (inv : Inv n s pc) (i : ℕ) (lt : i < n) where
  open inv use {spinning, owning, waiting, distinct, idle, order, open_empty}

  -- How the weights change when fiber `i` goes from `p` to `p'`.
  record Mover (p p' : Pc) : Type 0 where
    at : pc i ≡ p
    spinners : weigh spins n (update pc i p') + spins p ≡ weigh spins n pc + spins p'
    owners : weigh owns n (update pc i p') + owns p ≡ weigh owns n pc + owns p'
    spinner : spins p ≤ weigh spins n pc
    owner_le : owns p ≤ weigh owns n pc

  mover : (p' : Pc) → Mover (pc i) p'
  mover p' = record {
    at = refl;
    spinners = weigh-update spins n i pc p' lt;
    owners = weigh-update owns n i pc p' lt;
    spinner = weigh-ge spins n i pc lt;
    owner_le = weigh-ge owns n i pc lt;
  }

  idle_kept : (p : Pc) (j : ℕ) → n ≤ j → update pc i p j ≡ outside
  idle_kept p j le = rw (==_of_ne i j (omega (arith, lt, le))) (idle j le)

  -- The fibers that wait stay the same.
  waiting_kept :
      (p : Pc) → waits (pc i) ≡ waits p → (j : ℕ) → has j s.queue ≡ waits (update pc i p j)
  waiting_kept p e j = elim (ℕ_discrete i j) [
    | yes same ↦ rw (sym same) (rw (==_refl i) (waiting i ∙ e))
    | no ne ↦ rw (==_of_ne i j ne) (waiting j)
  ]

  -- The fiber that queues waits.
  waiting_more :
      waits (pc i) ≡ false → (j : ℕ) → has j (s.queue ++ i ∷ []) ≡ waits (update pc i suspending j)
  waiting_more e j = elim (ℕ_discrete i j) [
    | yes same ↦ rw (sym same) (rw (has-snoc i i s.queue, ==_refl i) refl)
    | no ne ↦ rw (has-snoc j i s.queue, ==_of_ne i j ne, ==_of_ne j i (λ h. ne (sym h))) (waiting j)
  ]

  closed_order : s.queue ≡ [] → s.arrived ++ i ∷ [] ≡ (s.granted ++ i ∷ []) ++ s.queue
  closed_order e = rw (order, e, append-nil, append-nil) refl

  Move-Inv :
      {p p' : Pc} {t : Mutex}
      → Move s i p t p'
      → t.twice ≡ false
      → Mover p p'
      → Inv n t (update pc i p')
  Move-Inv call_lock fine m = record {
    spinning = omega (arith, spinning, m.spinners);
    owning = omega (arith, owning, m.owners);
    waiting = waiting_kept locking (ap waits m.at);
    distinct = distinct;
    idle = idle_kept locking;
    order = order;
    open_empty = open_empty;
  }
  Move-Inv (lock_spin e) fine m = record {
    spinning = omega (arith, spinning, m.spinners, ap held e);
    owning = omega (arith, owning, m.owners);
    waiting = waiting_kept testing (ap waits m.at);
    distinct = distinct;
    idle = idle_kept testing;
    order = order;
    open_empty = open_empty;
  }
  Move-Inv (close e) fine m = record {
    spinning = omega (arith, spinning, m.spinners, m.spinner, held_le s.spinlock);
    owning = omega (arith, owning, m.owners, ap bit e);
    waiting = waiting_kept owner (ap waits m.at);
    distinct = distinct;
    idle = idle_kept owner;
    order = closed_order (open_empty e);
    open_empty = λ o. absurd (true-ne o);
  }
  Move-Inv (enqueue e) fine m = record {
    spinning = omega (arith, spinning, m.spinners);
    owning = omega (arith, owning, m.owners);
    waiting = waiting_more (ap waits m.at);
    distinct =
        Distinct-append s.queue (i ∷ []) distinct (refl, tt)
          (Disjoint-one i s.queue (waiting i ∙ ap waits m.at));
    idle = idle_kept suspending;
    order = rw order (append_assoc s.granted s.queue (i ∷ []));
    open_empty = λ o. absurd (true-ne (sym e ∙ o));
  }
  Move-Inv suspend fine m = record {
    spinning = omega (arith, spinning, m.spinners, m.spinner, held_le s.spinlock);
    owning = omega (arith, owning, m.owners);
    waiting = waiting_kept suspended (ap waits m.at);
    distinct = distinct;
    idle = idle_kept suspended;
    order = order;
    open_empty = open_empty;
  }
  Move-Inv (wake done) fine m = record {
    spinning = omega (arith, spinning, m.spinners);
    owning = omega (arith, owning, m.owners);
    waiting = waiting_kept owner (ap waits m.at);
    distinct = distinct;
    idle = idle_kept owner;
    order = order;
    open_empty = open_empty;
  }
  Move-Inv (wake_early early) fine m = absurd (true-ne fine)
  Move-Inv call_unlock fine m = record {
    spinning = omega (arith, spinning, m.spinners);
    owning = omega (arith, owning, m.owners);
    waiting = waiting_kept unlocking (ap waits m.at);
    distinct = distinct;
    idle = idle_kept unlocking;
    order = order;
    open_empty = open_empty;
  }
  Move-Inv (unlock_spin e) fine m = record {
    spinning = omega (arith, spinning, m.spinners, ap held e);
    owning = omega (arith, owning, m.owners);
    waiting = waiting_kept releasing (ap waits m.at);
    distinct = distinct;
    idle = idle_kept releasing;
    order = order;
    open_empty = open_empty;
  }
  Move-Inv (open_up e) fine m = record {
    spinning = omega (arith, spinning, m.spinners, m.spinner, held_le s.spinlock);
    owning = omega (arith, owning, m.owners, m.owner_le, bit_le s.closed);
    waiting = waiting_kept outside (ap waits m.at);
    distinct = distinct;
    idle = idle_kept outside;
    order = order;
    open_empty = λ o. e;
  }

  -- `i` hands the mutex over to `j`, the oldest that waits.
  module _ (j : ℕ) (rest : List ℕ) (at : pc i ≡ releasing) (front : s.queue ≡ j ∷ rest) where
    pub waiter : waits (pc j) ≡ true
    waiter = sym (waiting j) ∙ rw front (rw (==_refl j) refl)

    apart : i ≢ j
    apart e = true-ne (sym waiter ∙ ap (λ k. waits (pc k)) (sym e) ∙ ap waits at)

    waiter_lt : j < n
    waiter_lt = elim (dec_lt j n) [
      | yes below ↦ below
      | no above ↦ absurd (true-ne (sym waiter ∙ ap waits (idle j (omega (arith, above)))))
    ]

    -- It is suspended: it cannot hold the spinlock, which `i` holds.
    pub suspended_at : pc j ≡ suspended
    suspended_at = elim (waits_cases (pc j) waiter) [
      | inl there ↦ there
      | inr spinning_too ↦ absurd (
          omega (
            arith,
            spinning_too,
            ap spins at,
            spinning,
            held_le s.spinlock,
            weigh-ge_two spins n i j pc lt waiter_lt apart,
          ))
    ]

    stays : update pc i outside j ≡ suspended
    stays = rw (==_of_ne i j apart) suspended_at

    waiting_behind : (k : ℕ) → has k (j ∷ rest) ≡ waits (pc k)
    waiting_behind k = ap (has k) (sym front) ∙ waiting k

    Distinct-front : Distinct (j ∷ rest)
    Distinct-front = subst Distinct front distinct

    waiting_left : (k : ℕ) → has k rest ≡ waits (update (update pc i outside) j scheduled k)
    waiting_left k = elim (ℕ_discrete j k) [
      | yes same ↦ rw (sym same) (rw (==_refl j) Distinct-front.0)
      | no ne ↦ rw (==_of_ne j k ne) (elim (ℕ_discrete i k) [
        | yes same ↦ rw (sym same) (rw (==_refl i) (not_in_rest (waiting_behind i ∙ ap waits at)))
        | no ne' ↦ rw (==_of_ne i k ne') (behind k (λ e. ne (sym e)))
      ])
    ]
      where
        not_in_rest : has i (j ∷ rest) ≡ false → has i rest ≡ false
        not_in_rest e = ground (arith, e)

        behind : (k : ℕ) → k ≢ j → has k rest ≡ waits (pc k)
        behind k ne =
            subst (λ b. (b || has k rest) ≡ waits (pc k)) (==_of_ne k j ne) (waiting_behind k)

    hand_over-Inv :
        Inv n
          (record s { spinlock = none; queue = rest; granted = s.granted ++ j ∷ [] })
          (update (update pc i outside) j scheduled)
    hand_over-Inv = record {
      spinning = omega (
        arith,
        spinning,
        held_le s.spinlock,
        ap spins at,
        ap spins stays,
        weigh-update spins n i pc outside lt,
        weigh-update spins n j (update pc i outside) scheduled waiter_lt,
      );
      owning = omega (
        arith,
        owning,
        ap owns at,
        ap owns stays,
        weigh-update owns n i pc outside lt,
        weigh-update owns n j (update pc i outside) scheduled waiter_lt,
      );
      waiting = waiting_left;
      distinct = Distinct-front.1;
      idle = λ k le. rw (==_of_ne j k (omega (arith, waiter_lt, le))) (idle_kept outside k le);
      order = rw (order, front) (sym (append_assoc s.granted (j ∷ []) rest));
      open_empty =
          λ o. absurd (omega (arith, owning, ap bit o, ap owns at, weigh-ge owns n i pc lt));
    }

Move-twice : {i : ℕ} {s t : Mutex} {p p' : Pc} → Move s i p t p' → t.twice ≡ false → s.twice ≡ false
Move-twice call_lock fine = fine
Move-twice (lock_spin e) fine = fine
Move-twice (close e) fine = fine
Move-twice (enqueue e) fine = fine
Move-twice suspend fine = fine
Move-twice (wake done) fine = fine
Move-twice (wake_early early) fine = absurd (true-ne fine)
Move-twice call_unlock fine = fine
Move-twice (unlock_spin e) fine = fine
Move-twice (open_up e) fine = fine

pub Reach-Inv : {n : ℕ} {s : System} → Reach n s → s.mutex.twice ≡ false → Inv n s.mutex s.pc
Reach-Inv {n} here fine = record {
  spinning = weigh-eq_zero spins n (λ _. outside) (λ i. refl);
  owning = weigh-eq_zero owns n (λ _. outside) (λ i. refl);
  waiting = λ j. refl;
  distinct = tt;
  idle = λ j le. refl;
  order = refl;
  open_empty = λ o. refl;
}
Reach-Inv (next r (step i lt mv)) fine =
    let h = Reach-Inv r (Move-twice mv fine) in Move-Inv h i lt mv fine (mover h i lt _)
Reach-Inv (next r (mark i marked)) fine =
    let h = Reach-Inv r fine in
    record {
      spinning = h.spinning;
      owning = h.owning;
      waiting = h.waiting;
      distinct = h.distinct;
      idle = h.idle;
      order = h.order;
      open_empty = h.open_empty;
    }
Reach-Inv (next r (hand_over i j {rest} lt at front)) fine =
    hand_over-Inv (Reach-Inv r fine) i lt j rest at front
