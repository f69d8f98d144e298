-- ===== src/Fibers/ConditionVariable/NotifyAll.antt =====
-- fibers/sync/condition_variable.hpp: the loop of `NotifyAll`, which keeps the spinlock throughout.
use concurrency_library.Common.{
  ℕ, false, zero, suc, Option, none, some, length, ◌<◌, ◌≡◌, ◌≢◌, refl, sym, ap, subst, ◌∙◌, List,
  [], ◌∷◌, ◌++◌, update, has, append_assoc, append-nil, ==_refl, ==_of_ne, ℕ_discrete,
  if◌then◌else◌, arith,
}
use concurrency_library.Fibers.Mutex.Invariant.{true-ne}
use concurrency_library.Fibers.ConditionVariable.{
  scheduled, notifying_all, Notifies, again, System, resume, Reach, next,
}
use concurrency_library.Fibers.ConditionVariable.Kept.{waits}
use concurrency_library.Fibers.ConditionVariable.Safety.{wakes_suspended}

-- Fiber `i` takes the awaiter of `j` from the queue, which leaves `rest`, and resumes it.
abbrev pub round : System → ℕ → ℕ → List ℕ → System
round s i j rest = record {
  condition = record s.condition { queue = rest; notified = s.condition.notified ++ j ∷ [] };
  pc = update (update s.pc i notifying_all) j scheduled;
}

-- `while (queue_.Size() > 0)`, for at most `fuel` tests.
unfoldable pub notify_loop : ℕ → System → ℕ → Option System
notify_loop zero s i = none
notify_loop (suc fuel) s i = elim s.condition.queue [
  | [] ↦ some s
  | j ∷ rest ↦ notify_loop fuel (round s i j rest) i
]

record Awakened (n : ℕ) (s t : System) (js : List ℕ) : Type 0 where
  reach : Reach n t
  fine : t.condition.twice ≡ false
  emptied : t.condition.queue ≡ []
  notified : t.condition.notified ≡ s.condition.notified ++ js
  pcs : (k : ℕ) → t.pc k ≡ (if has k js then scheduled else s.pc k)

-- One round of fiber `i`.
module _ {n : ℕ} {s : System} (i j : ℕ) (rest : List ℕ) (r : Reach n s)
    (fine : s.condition.twice ≡ false) (lt : i < n) (at : s.pc i ≡ notifying_all)
    (e : s.condition.queue ≡ j ∷ rest) where
  by : Notifies (s.pc i) notifying_all
  by = subst (λ p. Notifies p notifying_all) (sym at) again

  apart : j ≢ i
  apart h = true-ne (
      sym (ap waits (wakes_suspended i j r fine lt by e))
      ∙ ap (λ k. waits (s.pc k)) h
      ∙ ap waits at)

  unmoved : (k : ℕ) → update s.pc i notifying_all k ≡ s.pc k
  unmoved k = elim (ℕ_discrete i k) [
    | yes h ↦ rw (sym h) (rw (==_refl i) (sym at))
    | no ne ↦ rw (==_of_ne i k ne) refl
  ]

  still : (round s i j rest).pc i ≡ notifying_all
  still = rw (==_of_ne j i apart) (unmoved i ∙ at)

  same :
      (k : ℕ)
      → (if has k rest then scheduled else (round s i j rest).pc k)
        ≡ (if has k (j ∷ rest) then scheduled else s.pc k)
  same k = elim (ℕ_discrete j k) [
    | yes h ↦ rw (sym h) (rw (==_refl j) (ground arith))
    | no ne ↦ rw (==_of_ne j k ne, ==_of_ne k j (λ h. ne (sym h)), unmoved k) refl
  ]

loop-Awakened :
    {n : ℕ} (js : List ℕ) (fuel : ℕ) (s : System) (i : ℕ)
    → length js < fuel
    → Reach n s
    → s.condition.twice ≡ false
    → i < n
    → s.pc i ≡ notifying_all
    → s.condition.queue ≡ js
    → (t : System) × (notify_loop fuel s i ≡ some t) × Awakened n s t js
unfolding notify_loop
loop-Awakened js zero s i enough r fine lt at e = absurd (omega (arith, enough))
loop-Awakened [] (suc fuel) s i enough r fine lt at e = (
  s,
  rw e refl,
  record {
    reach = r;
    fine = fine;
    emptied = e;
    notified = sym (append-nil s.condition.notified);
    pcs = λ k. refl;
  },
)
loop-Awakened {n} (j ∷ rest) (suc fuel) s i enough r fine lt at e =
    let (t, runs, later) =
      loop-Awakened rest fuel (round s i j rest) i (omega (arith, enough))
        (next r (resume i j lt (by i j rest r fine lt at e) e)) fine lt
        (still i j rest r fine lt at e) refl in
    (
      t,
      rw e runs,
      record {
        reach = later.reach;
        fine = later.fine;
        emptied = later.emptied;
        notified = later.notified ∙ append_assoc s.condition.notified (j ∷ []) rest;
        pcs = λ k. later.pcs k ∙ same i j rest r fine lt at e k;
      },
    )

-- In every interleaving in which no guard is released twice, when `NotifyAll` is about to start its
-- loop: with more tests of the size than there are awaiters the loop, which no other fiber disturbs
-- in the queue, ends, and then the queue is empty, the awaiters were resumed in their order, their
-- fibers are scheduled and no other fiber has moved.
pub notify_loop-awakens :
    {n : ℕ} {s : System} (i fuel : ℕ)
    → Reach n s
    → s.condition.twice ≡ false
    → i < n
    → s.pc i ≡ notifying_all
    → length s.condition.queue < fuel
    → (t : System) × (notify_loop fuel s i ≡ some t)
      × Reach n t
      × (t.condition.queue ≡ [])
      × (t.condition.notified ≡ s.condition.notified ++ s.condition.queue)
      × ((k : ℕ) → t.pc k ≡ (if has k s.condition.queue then scheduled else s.pc k))
notify_loop-awakens {s} i fuel r fine lt at enough =
    let (t, runs, all) = loop-Awakened s.condition.queue fuel s i enough r fine lt at refl in
    (t, runs, all.reach, all.emptied, all.notified, all.pcs)
