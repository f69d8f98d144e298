-- ===== src/Fibers/WaitGroup/Kept.antt =====
-- fibers/sync/waitgroup.hpp: every step keeps the invariant of the wait group.
use concurrency_library.Common.{
  ℕ, add64, dec64, ◌+◌, ◌<◌, ◌≤◌, ◌≡◌, ◌≢◌, refl, sym, ap, subst, ◌∙◌, Bool, true, false, List, [],
  ◌∷◌, update, ==_refl, ==_of_ne, arith, weigh-update, weigh-ge, weigh-eq_zero, ℕ_discrete, dec_lt,
  ◌⊎◌, inl, inr,
}
use concurrency_library.Fibers.WaitGroup.{
  Pc, outside, pushing, suspending, suspended, scheduled, grabbing, resuming, looping, WaitGroup,
  top, Move, add, done_last, done_more, all_done, wait_no, wait_yes, push, push_retry,
  suspend_first, suspend_second, run, grab_none, grab_one, grab_more, finish, resume_first, System,
  step, resume_second, Reach, here, next,
}
use concurrency_library.Fibers.WaitGroup.Invariant.{bit, times, in_hand, pending, Good, Inv}

true-ne : true ≢ false
true-ne = cc

-- An awaiter that is pending belongs to a fiber that suspends, and nobody has resumed it.
pub pending_cases :
    (p : Pc) (k : ℕ) (b : Bool)
    → Good p k b
    → 0 < k
    → (k ≡ 1) × (((p ≡ suspending) × (b ≡ false)) ⊎ ((p ≡ suspended) × (b ≡ true)))
pending_cases outside k b h lt = absurd (omega (arith, h, lt))
pending_cases (pushing old) k b h lt = absurd (omega (arith, h.0, lt))
pending_cases suspending k b (inl h) lt = (h.0, inl (refl, h.1))
pending_cases suspending k b (inr h) lt = absurd (omega (arith, h.0, lt))
pending_cases suspended k b h lt = (h.0, inr (refl, h.1))
pending_cases scheduled k b h lt = absurd (omega (arith, h, lt))
pending_cases grabbing k b h lt = absurd (omega (arith, h, lt))
pending_cases (resuming js) k b h lt = absurd (omega (arith, h, lt))
pending_cases looping k b h lt = absurd (omega (arith, h, lt))

module _ {n : ℕ} {s : WaitGroup} {pc : ℕ → Pc} (inv : Inv n s pc) (i : ℕ) (lt : i < n) where
  module _ {a : Pc} (at : pc i ≡ a) where
    own : Good a (pending n s pc i) (s.resumed i)
    own = subst (λ p. Good p (pending n s pc i) (s.resumed i)) at (inv.good i)

    -- How the step changes what is pending.
    shift :
        (t : WaitGroup) (b : Pc) (j : ℕ)
        → pending n t (update pc i b) j + (times j s.head + in_hand j a)
          ≡ pending n s pc j + (times j t.head + in_hand j b)
    shift t b j = omega (arith, weigh-update (in_hand j) n i pc b lt, ap (in_hand j) at)

    idle_kept : (b : Pc) (j : ℕ) → n ≤ j → update pc i b j ≡ outside
    idle_kept b j le = rw (==_of_ne i j (omega (arith, lt, le))) (inv.idle j le)

    rebuilt :
        (t : WaitGroup) (b : Pc)
        → Good b (pending n t (update pc i b) i) (t.resumed i)
        → ((j : ℕ) → i ≢ j → Good (pc j) (pending n t (update pc i b) j) (t.resumed j))
        → Inv n t (update pc i b)
    rebuilt t b self others = record { good = good; idle = idle_kept b }
      where
        good : (j : ℕ) → Good (update pc i b j) (pending n t (update pc i b) j) (t.resumed j)
        good j = elim (ℕ_discrete i j) [
          | yes e ↦
              subst (λ j. Good (update pc i b j) (pending n t (update pc i b) j) (t.resumed j)) e
                (rw (==_refl i) self)
          | no ne ↦ rw (==_of_ne i j ne) (others j ne)
        ]

    -- For the other fibers nothing changes.
    unmoved :
        (t : WaitGroup) (b : Pc)
        → ((j : ℕ) → i ≢ j → t.resumed j ≡ s.resumed j)
        → ((j : ℕ) → i ≢ j → times j t.head + in_hand j b ≡ times j s.head + in_hand j a)
        → (j : ℕ) → i ≢ j
        → Good (pc j) (pending n t (update pc i b) j) (t.resumed j)
    unmoved t b flags moved j ne =
        let same : pending n t (update pc i b) j ≡ pending n s pc j =
          omega (arith, shift t b j, moved j ne) in
        rw (flags j ne, same) (inv.good j)

  -- A step that changes at most the flag of `i`, for a fiber that has no awaiter.
  quiet :
      {a : Pc} (at : pc i ≡ a) (t : WaitGroup) (b : Pc)
      → ((j : ℕ) → i ≢ j → t.resumed j ≡ s.resumed j)
      → ((j : ℕ) → times j t.head + in_hand j b ≡ times j s.head + in_hand j a)
      → (pending n t (update pc i b) i ≡ pending n s pc i
          → Good b (pending n t (update pc i b) i) (t.resumed i))
      → Inv n t (update pc i b)
  quiet at t b flags moved self =
      rebuilt at t b (self (omega (arith, shift at t b i, moved i)))
        (unmoved at t b flags (λ j ne. moved j))

  -- The next awaiter that `i` resumes.
  module _ (j : ℕ) (js : List ℕ) (at : pc i ≡ resuming (j ∷ js)) where
    counted : times j (j ∷ js) ≡ times j js + 1
    counted = omega (arith, ap bit (==_refl j))

    front_pending : 0 < pending n s pc j
    front_pending = omega (arith, weigh-ge (in_hand j) n i pc lt, ap (in_hand j) at, counted)

    pub apart : i ≢ j
    apart e = omega (arith, front_pending, ap (pending n s pc) (sym e), own at)

    pub waits_for :
        (pending n s pc j ≡ 1)
        × (((pc j ≡ suspending) × (s.resumed j ≡ false))
            ⊎ ((pc j ≡ suspended) × (s.resumed j ≡ true)))
    waits_for = pending_cases (pc j) (pending n s pc j) (s.resumed j) (inv.good j) front_pending

    pub taken_out :
        (t : WaitGroup) → t.head ≡ s.head → pending n t (update pc i (resuming js)) j ≡ 0
    taken_out t e = omega (arith, shift at t (resuming js) j, ap (times j) e, waits_for.0, counted)

    others_same : (m : ℕ) → j ≢ m → times m js ≡ times m (j ∷ js)
    others_same m ne = omega (arith, ap bit (==_of_ne m j (λ e. ne (sym e))))

    abbrev early : WaitGroup
    early = record s { resumed = update s.resumed j true }

    abbrev later : ℕ → Pc
    later = update (update pc i (resuming js)) j scheduled

    -- `Resume` comes before `AwaitSuspend`.
    resume_first-Inv :
        s.resumed j ≡ false
        → Inv n (record s { resumed = update s.resumed j true }) (update pc i (resuming js))
    resume_first-Inv unset = rebuilt at early (resuming js) (self (own at)) others
      where
        self : pending n s pc i ≡ 0 → pending n early (update pc i (resuming js)) i ≡ 0
        self e =
            omega (arith, shift at early (resuming js) i, e, others_same i (λ e. apart (sym e)))

        here_now :
            ((pc j ≡ suspending) × (s.resumed j ≡ false))
              ⊎ ((pc j ≡ suspended) × (s.resumed j ≡ true))
            → Good (pc j) (pending n early (update pc i (resuming js)) j) (early.resumed j)
        here_now (inl h) = rw (h.0) (inr (taken_out early refl, rw (==_refl j) refl))
        here_now (inr h) = absurd (true-ne (sym h.1 ∙ unset))

        others :
            (m : ℕ)
            → i ≢ m
            → Good (pc m) (pending n early (update pc i (resuming js)) m) (early.resumed m)
        others m ne = elim (ℕ_discrete j m) [
          | yes e ↦
              subst
                (λ m. Good (pc m) (pending n early (update pc i (resuming js)) m) (early.resumed m))
                e (here_now waits_for.1)
          | no off ↦
              let same : pending n early (update pc i (resuming js)) m ≡ pending n s pc m =
                omega (arith, shift at early (resuming js) m, others_same m off) in
              rw (==_of_ne j m off, same) (inv.good m)
        ]

    -- `Resume` comes second.
    pub second_at : s.resumed j ≡ true → pc j ≡ suspended
    second_at set = elim waits_for.1 [ inl h ↦ absurd (true-ne (sym set ∙ h.1)) | inr h ↦ h.0 ]

    below : s.resumed j ≡ true → j < n
    below set = elim (dec_lt j n) [
      | yes less ↦ less
      | no more ↦ absurd (outside-ne (sym (inv.idle j (omega (arith, more))) ∙ second_at set))
    ]
      where
        outside-ne : outside ≢ suspended
        outside-ne = cc

    resume_second-Inv :
        s.resumed j ≡ true → Inv n s (update (update pc i (resuming js)) j scheduled)
    resume_second-Inv set = record {
      good = good;
      idle = λ m le.
          rw (==_of_ne j m (omega (arith, below set, le))) (idle_kept at (resuming js) m le);
    }
      where
        stays : update pc i (resuming js) j ≡ suspended
        stays = rw (==_of_ne i j apart) (second_at set)

        same : (m : ℕ) → pending n s later m ≡ pending n s (update pc i (resuming js)) m
        same m = omega (
          arith,
          weigh-update (in_hand m) n j (update pc i (resuming js)) scheduled (below set),
          ap (in_hand m) stays,
        )

        good : (m : ℕ) → Good (later m) (pending n s later m) (s.resumed m)
        good m = elim (ℕ_discrete j m) [
          | yes e ↦
              subst (λ m. Good (later m) (pending n s later m) (s.resumed m)) e
                (rw (==_refl j) (same j ∙ taken_out s refl))
          | no off ↦ rw (==_of_ne j m off) (elim (ℕ_discrete i m) [
            | yes e ↦
                subst (λ m. Good (update pc i (resuming js) m) (pending n s later m) (s.resumed m))
                  e
                  (rw (==_refl i) (
                    omega (
                      arith,
                      same i,
                      shift at s (resuming js) i,
                      own at,
                      others_same i (λ e. apart (sym e)),
                    )))
            | no ne ↦
                let kept : pending n s later m ≡ pending n s pc m =
                  omega (arith, same m, shift at s (resuming js) m, others_same m off) in
                rw (==_of_ne i m ne, kept) (inv.good m)
          ])
        ]

  Move-Inv :
      {a b : Pc} {t : WaitGroup}
      → pc i ≡ a
      → Move s i a t b
      → t.looped ≡ false
      → Inv n t (update pc i b)
  Move-Inv at (add k) fine =
      quiet at (record s { count = add64 s.count k }) outside (λ j ne. refl) (λ j. refl)
        (λ e. e ∙ own at)
  Move-Inv at (done_last one) fine =
      quiet at (record s { count = dec64 s.count }) grabbing (λ j ne. refl) (λ j. refl)
        (λ e. e ∙ own at)
  Move-Inv at (done_more ne) fine =
      quiet at (record s { count = dec64 s.count }) outside (λ j ne. refl) (λ j. refl)
        (λ e. e ∙ own at)
  Move-Inv at all_done fine =
      quiet at (record s { count = 0 }) grabbing (λ j ne. refl) (λ j. refl) (λ e. e ∙ own at)
  Move-Inv at (wait_no zero_left) fine =
      quiet at s outside (λ j ne. refl) (λ j. refl) (λ e. e ∙ own at)
  Move-Inv at (wait_yes some_left) fine =
      quiet at (record s { resumed = update s.resumed i false }) (pushing (top s.head))
        (λ j ne. rw (==_of_ne i j ne) refl) (λ j. refl) (λ e. (e ∙ own at, rw (==_refl i) refl))
  Move-Inv at (push {old} same) fine =
      rebuilt at (record s { head = i ∷ s.head }) suspending
        (inl (
          omega (
            arith,
            shift at (record s { head = i ∷ s.head }) suspending i,
            (own at).0,
            ap bit (==_refl i),
          ),
          (own at).1,
        ))
        (unmoved at (record s { head = i ∷ s.head }) suspending (λ j ne. refl)
          (λ j ne. omega (arith, ap bit (==_of_ne j i (λ e. ne (sym e))))))
  Move-Inv at (push_retry {old} other) fine =
      quiet at s (pushing (top s.head)) (λ j ne. refl) (λ j. refl)
        (λ e. (e ∙ (own at).0, (own at).1))
  Move-Inv at (suspend_first unset) fine =
      quiet at (record s { resumed = update s.resumed i true }) suspended
        (λ j ne. rw (==_of_ne i j ne) refl) (λ j. refl)
        (λ e. (e ∙ once (own at), rw (==_refl i) refl))
    where
      once :
          ((pending n s pc i ≡ 1) × (s.resumed i ≡ false))
            ⊎ ((pending n s pc i ≡ 0) × (s.resumed i ≡ true))
          → pending n s pc i ≡ 1
      once (inl h) = h.0
      once (inr h) = absurd (true-ne (sym h.1 ∙ unset))
  Move-Inv at (suspend_second set) fine =
      quiet at s scheduled (λ j ne. refl) (λ j. refl) (λ e. e ∙ gone (own at))
    where
      gone :
          ((pending n s pc i ≡ 1) × (s.resumed i ≡ false))
            ⊎ ((pending n s pc i ≡ 0) × (s.resumed i ≡ true))
          → pending n s pc i ≡ 0
      gone (inl h) = absurd (true-ne (sym set ∙ h.1))
      gone (inr h) = h.0
  Move-Inv at run fine = quiet at s outside (λ j ne. refl) (λ j. refl) (λ e. e ∙ own at)
  Move-Inv at (grab_none nil) fine = quiet at s outside (λ j ne. refl) (λ j. refl) (λ e. e ∙ own at)
  Move-Inv at (grab_one {j = k} one) fine =
      quiet at (record s { head = [] }) (resuming (k ∷ [])) (λ j ne. refl)
        (λ j. omega (arith, ap (times j) one)) (λ e. e ∙ own at)
  Move-Inv at (grab_more more) fine = absurd (true-ne fine)
  Move-Inv at finish fine = quiet at s outside (λ j ne. refl) (λ j. refl) (λ e. e ∙ own at)
  Move-Inv at (resume_first {j} {js} unset) fine = resume_first-Inv j js at unset

Move-looped :
    {s : WaitGroup} (i : ℕ) {t : WaitGroup} {a b : Pc}
    → Move s i a t b
    → t.looped ≡ false
    → s.looped ≡ false
Move-looped i (grab_more more) fine = absurd (true-ne fine)
Move-looped i (add k) fine = fine
Move-looped i (done_last e) fine = fine
Move-looped i (done_more e) fine = fine
Move-looped i all_done fine = fine
Move-looped i (wait_no e) fine = fine
Move-looped i (wait_yes e) fine = fine
Move-looped i (push e) fine = fine
Move-looped i (push_retry e) fine = fine
Move-looped i (suspend_first e) fine = fine
Move-looped i (suspend_second e) fine = fine
Move-looped i run fine = fine
Move-looped i (grab_none e) fine = fine
Move-looped i (grab_one e) fine = fine
Move-looped i finish fine = fine
Move-looped i (resume_first e) fine = fine

pub Reach-Inv : {n : ℕ} {s : System} → Reach n s → s.group.looped ≡ false → Inv n s.group s.pc
Reach-Inv {n} here fine = record {
  good = λ j. omega (arith, weigh-eq_zero (in_hand j) n (λ _. outside) (λ i. refl));
  idle = λ j le. refl;
}
Reach-Inv (next r (step i lt mv)) fine =
    Move-Inv (Reach-Inv r (Move-looped i mv fine)) i lt refl mv fine
Reach-Inv (next r (resume_second i j {js} lt at set)) fine =
    resume_second-Inv (Reach-Inv r fine) i lt j js at set
