-- ===== src/Fibers/ConditionVariable/Kept.antt =====
-- fibers/sync/condition_variable.hpp: the invariant of the condition variable, which every step
-- keeps.
use concurrency_library.Common.{
  ℕ, ◌+◌, ◌<◌, ◌≤◌, ◌≡◌, ◌≢◌, refl, sym, ap, subst, ◌∙◌, Bool, true, false, List, [], ◌∷◌, ◌++◌,
  update, has, Distinct, append_assoc, ==_refl, ==_of_ne, arith, weigh, weigh-update, weigh-ge,
  weigh-ge_two, weigh-eq_zero, ℕ_discrete, dec_lt, ◌⊎◌, inl, inr, ◌||◌, Distinct-append,
  Disjoint-one,
}
use concurrency_library.Fibers.Mutex.Invariant.{held, held_le, true-ne, has-snoc}
use concurrency_library.Fibers.ConditionVariable.{
  Pc, outside, unlocked, entering, suspending, suspended, scheduled, locked, undefined, calling_one,
  calling_all, finish, finish_early, mark, notifying_one, notifying_all, leaving, ConditionVariable,
  Move, lock_mutex, unlock_mutex, call_wait, wait_spin, push, suspend, relock, call_notify_one,
  one_spin, nobody, call_notify_all, all_spin, everybody, leave, Notifies, one, again, System, step,
  resume, Reach, here, next,
}

-- A fiber that holds the spinlock.
abbrev pub spins : Pc → ℕ
spins entering = 1
spins suspending = 1
spins notifying_one = 1
spins notifying_all = 1
spins leaving = 1
spins _ = 0

abbrev pub waits : Pc → Bool
waits suspending = true
waits suspended = true
waits _ = false

pub record Inv (n : ℕ) (s : ConditionVariable) (pc : ℕ → Pc) : Type 0 where
  pub spinning : weigh spins n pc ≡ held s.spinlock
  pub waiting : (j : ℕ) → has j s.queue ≡ waits (pc j)
  pub distinct : Distinct s.queue
  pub idle : (j : ℕ) → n ≤ j → pc j ≡ outside
  pub order : s.arrived ≡ s.notified ++ s.queue

waits_cases : (p : Pc) → waits p ≡ true → (p ≡ suspended) ⊎ (spins p ≡ 1)
waits_cases suspending w = inr refl
waits_cases suspended w = inl refl
waits_cases outside w = absurd (true-ne (sym w))
waits_cases unlocked w = absurd (true-ne (sym w))
waits_cases entering w = absurd (true-ne (sym w))
waits_cases locked w = absurd (true-ne (sym w))
waits_cases undefined w = absurd (true-ne (sym w))
waits_cases scheduled w = absurd (true-ne (sym w))
waits_cases calling_one w = absurd (true-ne (sym w))
waits_cases calling_all w = absurd (true-ne (sym w))
waits_cases notifying_one w = absurd (true-ne (sym w))
waits_cases notifying_all w = absurd (true-ne (sym w))
waits_cases leaving w = absurd (true-ne (sym w))

-- A fiber that notifies has the spinlock and does not wait.
Notifies-spins : {p q : Pc} → Notifies p q → (spins p ≡ 1) × (spins q ≡ 1)
Notifies-spins one = (refl, refl)
Notifies-spins again = (refl, refl)

Notifies-waits : {p q : Pc} → Notifies p q → (waits p ≡ false) × (waits q ≡ false)
Notifies-waits one = (refl, refl)
Notifies-waits again = (refl, refl)

-- When the front of a queue has left, the others still wait.
has-behind :
    (w w' : ℕ → Bool) (j : ℕ) (rest : List ℕ)
    → ((k : ℕ) → has k (j ∷ rest) ≡ w k)
    → has j rest ≡ false
    → w' j ≡ false
    → ((k : ℕ) → k ≢ j → w' k ≡ w k)
    → (k : ℕ) → has k rest ≡ w' k
has-behind w w' j rest all gone left same k = elim (ℕ_discrete k j) [
  | yes e ↦ rw e (gone ∙ sym left)
  | no ne ↦ subst (λ b. (b || has k rest) ≡ w k) (==_of_ne k j ne) (all k) ∙ sym (same k ne)
]

module _ {n : ℕ} {s : ConditionVariable} {pc : ℕ → Pc} (inv : Inv n s pc) (i : ℕ) (lt : i < n) where
  open inv use {spinning, waiting, distinct, idle, order}

  idle_kept : (p : Pc) (j : ℕ) → n ≤ j → update pc i p j ≡ outside
  idle_kept p j le = rw (==_of_ne i j (omega (arith, lt, le))) (idle j le)

  waiting_kept :
      (p : Pc) → waits (pc i) ≡ waits p → (j : ℕ) → has j s.queue ≡ waits (update pc i p j)
  waiting_kept p e j = elim (ℕ_discrete i j) [
    | yes same ↦ rw (sym same) (rw (==_refl i) (waiting i ∙ e))
    | no ne ↦ rw (==_of_ne i j ne) (waiting j)
  ]

  waiting_more :
      waits (pc i) ≡ false → (j : ℕ) → has j (s.queue ++ i ∷ []) ≡ waits (update pc i suspending j)
  waiting_more e j = elim (ℕ_discrete i j) [
    | yes same ↦ rw (sym same) (rw (has-snoc i i s.queue, ==_refl i) refl)
    | no ne ↦ rw (has-snoc j i s.queue, ==_of_ne i j ne, ==_of_ne j i (λ h. ne (sym h))) (waiting j)
  ]

  -- A move that leaves the queue as it is.
  same_queue :
      (t : ConditionVariable) (p : Pc)
      → weigh spins n (update pc i p) ≡ held t.spinlock
      → t.queue ≡ s.queue
      → t.arrived ≡ s.arrived
      → t.notified ≡ s.notified
      → waits (pc i) ≡ waits p
      → Inv n t (update pc i p)
  same_queue t p sp q a d w = record {
    spinning = sp;
    waiting = λ j. rw q (waiting_kept p w j);
    distinct = subst Distinct (sym q) distinct;
    idle = idle_kept p;
    order = rw (a, d, q) order;
  }

  -- How the number of fibers with the spinlock changes when fiber `i` goes from `p` to `p'`.
  record Mover (p p' : Pc) : Type 0 where
    at : pc i ≡ p
    spinners : weigh spins n (update pc i p') + spins p ≡ weigh spins n pc + spins p'
    spinner : spins p ≤ weigh spins n pc

  mover : (p' : Pc) → Mover (pc i) p'
  mover p' = record {
    at = refl;
    spinners = weigh-update spins n i pc p' lt;
    spinner = weigh-ge spins n i pc lt;
  }

  Move-Inv :
      {p p' : Pc} {t : ConditionVariable}
      → Move s i p t p'
      → t.twice ≡ false
      → Mover p p'
      → Inv n t (update pc i p')
  Move-Inv (lock_mutex e) fine m =
      same_queue _ outside (omega (arith, spinning, m.spinners)) refl refl refl (ap waits m.at)
  Move-Inv (unlock_mutex e) fine m =
      same_queue _ outside (omega (arith, spinning, m.spinners)) refl refl refl (ap waits m.at)
  Move-Inv (call_wait e) fine m =
      same_queue _ unlocked (omega (arith, spinning, m.spinners)) refl refl refl (ap waits m.at)
  Move-Inv (wait_spin e) fine m =
      same_queue _ entering (omega (arith, spinning, m.spinners, ap held e)) refl refl refl
        (ap waits m.at)
  Move-Inv push fine m = record {
    spinning = omega (arith, spinning, m.spinners);
    waiting = waiting_more (ap waits m.at);
    distinct =
        Distinct-append s.queue (i ∷ []) distinct (refl, tt)
          (Disjoint-one i s.queue (waiting i ∙ ap waits m.at));
    idle = idle_kept suspending;
    order = rw order (append_assoc s.notified s.queue (i ∷ []));
  }
  Move-Inv suspend fine m =
      same_queue _ suspended (omega (arith, spinning, m.spinners, m.spinner, held_le s.spinlock))
        refl refl refl (ap waits m.at)
  Move-Inv (finish done) fine m =
      same_queue _ outside (omega (arith, spinning, m.spinners)) refl refl refl (ap waits m.at)
  Move-Inv (finish_early early) fine m = absurd (true-ne fine)
  Move-Inv (relock e) fine m =
      same_queue _ locked (omega (arith, spinning, m.spinners)) refl refl refl (ap waits m.at)
  Move-Inv call_notify_one fine m =
      same_queue _ calling_one (omega (arith, spinning, m.spinners)) refl refl refl (ap waits m.at)
  Move-Inv (one_spin e) fine m =
      same_queue _ notifying_one (omega (arith, spinning, m.spinners, ap held e)) refl refl refl
        (ap waits m.at)
  Move-Inv (nobody e) fine m =
      same_queue _ leaving (omega (arith, spinning, m.spinners)) refl refl refl (ap waits m.at)
  Move-Inv call_notify_all fine m =
      same_queue _ calling_all (omega (arith, spinning, m.spinners)) refl refl refl (ap waits m.at)
  Move-Inv (all_spin e) fine m =
      same_queue _ notifying_all (omega (arith, spinning, m.spinners, ap held e)) refl refl refl
        (ap waits m.at)
  Move-Inv (everybody e) fine m =
      same_queue _ leaving (omega (arith, spinning, m.spinners)) refl refl refl (ap waits m.at)
  Move-Inv leave fine m =
      same_queue _ outside (omega (arith, spinning, m.spinners, m.spinner, held_le s.spinlock)) refl
        refl refl (ap waits m.at)

  -- `i` resumes `j`, the oldest that waits.
  module _ (j : ℕ) (rest : List ℕ) (p : Pc) (by : Notifies (pc i) p)
      (front : s.queue ≡ j ∷ rest) where
    pub waiter : waits (pc j) ≡ true
    waiter = sym (waiting j) ∙ rw front (rw (==_refl j) refl)

    apart : i ≢ j
    apart e = true-ne (sym waiter ∙ ap (λ k. waits (pc k)) (sym e) ∙ (Notifies-waits by).0)

    waiter_lt : j < n
    waiter_lt = elim (dec_lt j n) [
      | yes below ↦ below
      | no above ↦ absurd (true-ne (sym waiter ∙ ap waits (idle j (omega (arith, above)))))
    ]

    -- It is suspended: it cannot hold the spinlock, which `i` holds.
    pub suspended_at : pc j ≡ suspended
    suspended_at = elim (waits_cases (pc j) waiter) [
      | inl there ↦ there
      | inr spinning_too ↦ absurd (
          omega (
            arith,
            spinning_too,
            (Notifies-spins by).0,
            spinning,
            held_le s.spinlock,
            weigh-ge_two spins n i j pc lt waiter_lt apart,
          ))
    ]

    stays : update pc i p j ≡ suspended
    stays = rw (==_of_ne i j apart) suspended_at

    Distinct-front : Distinct (j ∷ rest)
    Distinct-front = subst Distinct front distinct

    others : (k : ℕ) → k ≢ j → waits (update (update pc i p) j scheduled k) ≡ waits (pc k)
    others k ne = rw (==_of_ne j k (λ e. ne (sym e))) (elim (ℕ_discrete i k) [
      | yes same ↦
          rw (sym same) (rw (==_refl i) ((Notifies-waits by).1 ∙ sym (Notifies-waits by).0))
      | no ne' ↦ rw (==_of_ne i k ne') refl
    ])

    resume-Inv :
        Inv n
          (record s { queue = rest; notified = s.notified ++ j ∷ [] })
          (update (update pc i p) j scheduled)
    resume-Inv = record {
      spinning = omega (
        arith,
        spinning,
        (Notifies-spins by).0,
        (Notifies-spins by).1,
        ap spins stays,
        weigh-update spins n i pc p lt,
        weigh-update spins n j (update pc i p) scheduled waiter_lt,
      );
      waiting =
          has-behind (λ k. waits (pc k)) (λ k. waits (update (update pc i p) j scheduled k)) j rest
            (λ k. ap (has k) (sym front) ∙ waiting k) Distinct-front.0 (rw (==_refl j) refl) others;
      distinct = Distinct-front.1;
      idle = λ k le. rw (==_of_ne j k (omega (arith, waiter_lt, le))) (idle_kept p k le);
      order = rw (order, front) (sym (append_assoc s.notified (j ∷ []) rest));
    }

pub Move-twice :
    {i : ℕ} {s t : ConditionVariable} {p p' : Pc}
    → Move s i p t p'
    → t.twice ≡ false
    → s.twice ≡ false
Move-twice (lock_mutex e) fine = fine
Move-twice (unlock_mutex e) fine = fine
Move-twice (call_wait e) fine = fine
Move-twice (wait_spin e) fine = fine
Move-twice push fine = fine
Move-twice suspend fine = fine
Move-twice (relock e) fine = fine
Move-twice (finish done) fine = fine
Move-twice call_notify_one fine = fine
Move-twice (one_spin e) fine = fine
Move-twice (nobody e) fine = fine
Move-twice call_notify_all fine = fine
Move-twice (all_spin e) fine = fine
Move-twice (everybody e) fine = fine
Move-twice leave fine = fine
Move-twice (finish_early early) fine = absurd (true-ne fine)

pub Reach-Inv :
    {n : ℕ} {s : System} → Reach n s → s.condition.twice ≡ false → Inv n s.condition s.pc
Reach-Inv {n} here fine = record {
  spinning = weigh-eq_zero spins n (λ _. outside) (λ i. refl);
  waiting = λ j. refl;
  distinct = tt;
  idle = λ j le. refl;
  order = refl;
}
Reach-Inv (next r (step i lt mv)) fine =
    let h = Reach-Inv r (Move-twice mv fine) in Move-Inv h i lt mv fine (mover h i lt _)
Reach-Inv (next r (mark i marked)) fine =
    let h = Reach-Inv r fine in
    record {
      spinning = h.spinning;
      waiting = h.waiting;
      distinct = h.distinct;
      idle = h.idle;
      order = h.order;
    }
Reach-Inv (next r (resume i j {rest} {p} lt by front)) fine =
    resume-Inv (Reach-Inv r fine) i lt j rest p by front
