-- ===== src/Fibers/Mutex/Tests.antt =====
-- Two fibers: fiber 1 waits while fiber 0 has the mutex, and then gets it.
use concurrency_library.Common.{ℕ, ◌<◌, ◌≡◌, refl, true, false, [], ◌++◌, has, arith}
use concurrency_library.Fibers.Mutex.{
  Pc, suspended, undefined, Mutex, Move, wake_early, wake, mark, call_lock, lock_spin, close,
  enqueue, suspend, call_unlock, unlock_spin, System, step, hand_over, Reach, here, next,
}
use concurrency_library.Fibers.Mutex.Invariant.{waits}
use concurrency_library.Fibers.Mutex.Safety.{one_owner, granted_in_order, resumes_suspended}

record Run : Type 0 where
  at : System
  reach : Reach 2 at

turn : (r : Run) (i : ℕ) {t : Mutex} {p : Pc} → i < 2 → Move r.at.mutex i (r.at.pc i) t p → Run
turn r i lt mv = record { at = _; reach = next r.reach (step i lt mv) }

abbrev locked : Run
unfolding turn
locked =
    let r0 : Run = record { at = _; reach = here } in
    let r1 = turn r0 0 (omega arith) call_lock in
    let r2 = turn r1 0 (omega arith) (lock_spin refl) in turn r2 0 (omega arith) (close refl)

abbrev queued : Run
unfolding turn
queued =
    let r1 = turn locked 1 (omega arith) call_lock in
    let r2 = turn r1 1 (omega arith) (lock_spin refl) in
    let r3 = turn r2 1 (omega arith) (enqueue refl) in turn r3 1 (omega arith) suspend

abbrev releases : Run
unfolding turn
releases =
    let r1 = turn queued 0 (omega arith) call_unlock in turn r1 0 (omega arith) (unlock_spin refl)

abbrev handed : Run
unfolding turn
handed = record { at = _; reach = next releases.reach (hand_over 0 1 (omega arith) refl refl) }

resumed : releases.at.pc 1 ≡ suspended
unfolding turn
resumed = resumes_suspended 0 1 releases.reach refl (omega arith) refl refl

-- The guard of fiber 1 is marked, and then its `~Guard` finds it released.
abbrev woken : Run
unfolding turn
woken =
    let marked : Run = record { at = _; reach = next handed.reach (mark 1 refl) } in
    turn marked 1 (omega arith) (wake refl)

one_owner_example : (◌≡◌ {A = ℕ} 1 1) × (woken.at.mutex.closed ≡ true)
unfolding turn
one_owner_example = one_owner woken.reach refl 1 1 (omega arith) (omega arith) refl refl

granted_in_order_example :
    (queued.at.mutex.arrived ≡ queued.at.mutex.granted ++ queued.at.mutex.queue)
    × ((j : ℕ) → has j queued.at.mutex.queue ≡ waits (queued.at.pc j))
    × (queued.at.mutex.closed ≡ false → queued.at.mutex.queue ≡ [])
unfolding turn
granted_in_order_example = granted_in_order queued.reach refl

-- Fiber 1 is resumed and scheduled before the thread that suspended it has set `released_`.
abbrev early : Run
unfolding turn
early = turn handed 1 (omega arith) (wake_early refl)

early-twice : (early.at.pc 1 ≡ undefined) × (early.at.mutex.twice ≡ true)
unfolding turn
early-twice = (refl, refl)
