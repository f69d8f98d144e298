-- ===== src/Detail/SpinLock/Tests.antt =====
-- Two threads: thread 1 waits behind thread 0, which wakes it.
use concurrency_library.Common.{ℕ, ◌≡◌, ◌≢◌, refl, true, Option, some, ◌⊎◌}
use concurrency_library.Detail.SpinLock.{
  Pc, waiting, SpinLock, Move, load_tail, swap_first, swap_behind, link, call_release,
  release_not_last, see_next, System, step, Reach, here, next_step,
}
use concurrency_library.Detail.SpinLock.Invariant.{queued, owns}
use concurrency_library.Detail.SpinLock.Safety.{one_holder, never_lost, touched_alive}

record Run : Type 0 where
  at : System
  reach : Reach at

turn : (r : Run) (i : ℕ) {t : SpinLock} {p : Pc} → Move r.at.lock i (r.at.pc i) t p → Run
turn r i mv = record { at = _; reach = next_step r.reach (step i mv) }

abbrev locked : Run
unfolding turn
locked =
    let r0 : Run = record { at = _; reach = here } in
    let r1 = turn r0 0 load_tail in turn r1 0 (swap_first refl)

abbrev both : Run
unfolding turn
both = let r1 = turn locked 1 load_tail in let r2 = turn r1 1 (swap_behind refl) in turn r2 1 link

one-ne_zero : ◌≢◌ {A = Option ℕ} (some 1) (some 0)
one-ne_zero = cc

abbrev wakes : Run
unfolding turn
wakes =
    let r1 = turn both 0 call_release in
    let r2 = turn r1 0 (release_not_last one-ne_zero) in turn r2 0 (see_next refl)

one_holder_example : (◌≡◌ {A = ℕ} 0 0) × (both.at.lock.ticket 0 ≡ both.at.lock.released)
unfolding turn
one_holder_example = one_holder 0 0 both.reach refl refl

never_lost_example :
    (j : ℕ) × (both.at.lock.ticket j ≡ both.at.lock.released)
    × ((owns (both.at.pc j) ≡ true) ⊎ ((both.at.pc j ≡ waiting) × (both.at.lock.owner j ≡ true)))
unfolding turn both
never_lost_example = never_lost 1 both.reach refl

touched_alive_example : queued (wakes.at.pc 1) ≡ true
unfolding turn
touched_alive_example = touched_alive 0 1 wakes.reach refl
