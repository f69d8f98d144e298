-- ===== src/Detail/SpinLock/Safety.antt =====
-- detail/spinlock.hpp: what holds in every interleaving of the threads.
use concurrency_library.Common.{
  ℕ, ◌+◌, ◌-◌, ◌<◌, ◌≡◌, refl, sym, ap, ◌∙◌, true, update, arith, ◌⊎◌, inl, inr, Bool-cases,
}
use concurrency_library.Detail.SpinLock.{
  Pc, outside, swapping, linking, waiting, holding, releasing, handing, waking, SpinLock, Move,
  load_tail, swap_first, swap_behind, swap_retry, link, see_owner, call_release, release_last,
  release_not_last, see_next, wake, System, step, Reach, here, next_step,
}
use concurrency_library.Detail.SpinLock.Invariant.{queued, owns, Good, Inv}
use concurrency_library.Detail.SpinLock.Release.{true-ne}
use concurrency_library.Detail.SpinLock.Steps.{own, quiet-Inv, load_tail-Inv}
use concurrency_library.Detail.SpinLock.Handing.{
  swap_first-Inv, swap_behind-Inv, link-Inv, release_not_last-Inv, see_next-Inv, release_last-Inv,
  wake-Inv,
}

Move-Inv :
    {s : SpinLock} {pc : ℕ → Pc} (i : ℕ) {t : SpinLock} {a b : Pc}
    → Inv s pc
    → pc i ≡ a
    → Move s i a t b
    → Inv t (update pc i b)
Move-Inv i inv at load_tail = load_tail-Inv inv i outside at refl
Move-Inv i inv at (swap_first e) = swap_first-Inv inv i at e
Move-Inv i inv at (swap_behind {j} e) = swap_behind-Inv inv i j at e
Move-Inv {s} i inv at (swap_retry {old}) =
    quiet-Inv inv i (swapping old) at (swapping s.tail) refl (own inv i (swapping old) at)
Move-Inv i inv at (link {j}) = link-Inv inv i j at
Move-Inv i inv at (see_owner e) =
    let known = own inv i waiting at in quiet-Inv inv i waiting at holding refl (known.0, known.1 e)
Move-Inv i inv at call_release = quiet-Inv inv i holding at releasing refl (own inv i holding at)
Move-Inv i inv at (release_last e) = release_last-Inv inv i at e
Move-Inv i inv at (release_not_last ne) = release_not_last-Inv inv i at ne
Move-Inv i inv at (see_next {k} e) = see_next-Inv inv i k at e
Move-Inv i inv at (wake {k}) = wake-Inv inv i k at

Reach-Inv : {s : System} → Reach s → Inv s.lock s.pc
Reach-Inv here = record {
  who = λ t. t;
  order = omega arith;
  last = refl;
  open_end = λ lt. absurd (omega (arith, lt));
  place = λ t lo hi. absurd (omega (arith, hi));
  good = λ i. tt;
}
Reach-Inv (next_step r (step i mv)) = Move-Inv i (Reach-Inv r) refl mv

-- The thread that has the lock is the first in the queue.
owner_first :
    (s : SpinLock) (who : ℕ → ℕ) (i : ℕ) (p : Pc)
    → Good s who i p
    → owns p ≡ true
    → (s.ticket i ≡ s.released) × (who s.released ≡ i)
owner_first s who i outside h o = absurd (true-ne (sym o))
owner_first s who i (swapping old) h o = absurd (true-ne (sym o))
owner_first s who i (linking j) h o = absurd (true-ne (sym o))
owner_first s who i waiting h o = absurd (true-ne (sym o))
owner_first s who i holding h o = (h.1, ap who (sym h.1) ∙ h.0.mine)
owner_first s who i releasing h o = (h.1, ap who (sym h.1) ∙ h.0.mine)
owner_first s who i handing h o = (h.1, ap who (sym h.1) ∙ h.0.mine)
owner_first s who i (waking k) h o = (h.1, ap who (sym h.1) ∙ h.0.mine)

-- In every interleaving of any number of threads at most one has the spinlock, from the moment it
-- gets it until it has released it, and it is the one that entered the queue after just as many
-- guards as have been released: the lock is given in the order of the exchanges of `tail_`.
pub one_holder :
    {s : System} (i j : ℕ)
    → Reach s
    → owns (s.pc i) ≡ true
    → owns (s.pc j) ≡ true
    → (i ≡ j) × (s.lock.ticket i ≡ s.lock.released)
one_holder {s} i j r oi oj =
    let h = Reach-Inv r in
    let first = owner_first s.lock h.who i (s.pc i) (h.good i) oi in
    (sym first.1 ∙ (owner_first s.lock h.who j (s.pc j) (h.good j) oj).1, first.0)

queued_range :
    (s : SpinLock) (who : ℕ → ℕ) (i : ℕ) (p : Pc)
    → Good s who i p
    → queued p ≡ true
    → s.released < s.entered
queued_range s who i outside h q = absurd (true-ne (sym q))
queued_range s who i (swapping old) h q = absurd (true-ne (sym q))
queued_range s who i (linking j) h q = omega (arith, h.0.from, h.0.below)
queued_range s who i waiting h q = omega (arith, h.0.from, h.0.below)
queued_range s who i holding h q = omega (arith, h.0.from, h.0.below)
queued_range s who i releasing h q = omega (arith, h.0.from, h.0.below)
queued_range s who i handing h q = omega (arith, h.0.from, h.0.below)
queued_range s who i (waking k) h q = omega (arith, h.0.from, h.0.below)

first_served :
    (s : SpinLock) (who : ℕ → ℕ) (j : ℕ) (p : Pc)
    → Good s who j p
    → s.ticket j ≡ s.released
    → queued p ≡ true
    → (owns p ≡ true) ⊎ ((p ≡ waiting) × (s.owner j ≡ true))
first_served s who j outside h e q = absurd (true-ne (sym q))
first_served s who j (swapping old) h e q = absurd (true-ne (sym q))
first_served s who j (linking k) h e q = absurd (omega (arith, h.1, e))
first_served s who j waiting h e q = elim (Bool-cases (s.owner j)) [
  | inl o ↦ inr (refl, o)
  | inr o ↦ absurd (omega (arith, (h.2 o).0, e))
]
first_served s who j holding h e q = inl refl
first_served s who j releasing h e q = inl refl
first_served s who j handing h e q = inl refl
first_served s who j (waking k) h e q = inl refl

-- In every interleaving, when the guard of some thread is in the queue, the thread whose turn it is
-- has the lock, or waits with its `owner_` set: the lock is never lost between two threads.
pub never_lost :
    {s : System} (i : ℕ)
    → Reach s
    → queued (s.pc i) ≡ true
    → (j : ℕ) × (s.lock.ticket j ≡ s.lock.released)
      × ((owns (s.pc j) ≡ true) ⊎ ((s.pc j ≡ waiting) × (s.lock.owner j ≡ true)))
never_lost {s} i r q =
    let h = Reach-Inv r in
    let there =
      h.place s.lock.released (omega arith) (queued_range s.lock h.who i (s.pc i) (h.good i) q) in
    let j = h.who s.lock.released in
    (j, there.0, first_served s.lock h.who j (s.pc j) (h.good j) there.0 there.1)

-- The thread whose guard a thread is about to write.
abbrev pub Writes : Pc → ℕ → Type 0
Writes (linking j) k = j ≡ k
Writes (waking j) k = j ≡ k
Writes _ k = ⊥

alive_in :
    {s : SpinLock} {pc : ℕ → Pc} (inv : Inv s pc) (i k : ℕ) (p : Pc)
    → Good s inv.who i p
    → Writes p k
    → queued (pc k) ≡ true
alive_in {s} {pc} inv i k outside h w = absurd w
alive_in {s} {pc} inv i k (swapping old) h w = absurd w
alive_in {s} {pc} inv i k (linking j) h w =
    ap (λ m. queued (pc m)) (sym w ∙ h.2)
    ∙ (inv.place (s.ticket i - 1) (omega (arith, h.1)) (omega (arith, h.0.below))).1
alive_in {s} {pc} inv i k waiting h w = absurd w
alive_in {s} {pc} inv i k holding h w = absurd w
alive_in {s} {pc} inv i k releasing h w = absurd w
alive_in {s} {pc} inv i k handing h w = absurd w
alive_in {s} {pc} inv i k (waking j) h w =
    ap (λ m. queued (pc m)) (sym w ∙ h.3) ∙ (inv.place (s.released + 1) (omega arith) h.2).1

-- In every interleaving a guard into which another thread is about to write, its `next_` or its
-- `owner_`, is still in the queue, so it is alive.
pub touched_alive : {s : System} (i k : ℕ) → Reach s → Writes (s.pc i) k → queued (s.pc k) ≡ true
touched_alive {s} i k r w = let h = Reach-Inv r in alive_in h i k (s.pc i) (h.good i) w
