-- ===== src/Fibers/ConditionVariable/Tests.antt =====
-- Two fibers: fiber 0 waits and fiber 1 notifies it, at the right moment and too early.
use concurrency_library.Common.{some, true, ℕ, ◌<◌, ◌≡◌, refl, if◌then◌else◌, [], ◌++◌, has, arith}
use concurrency_library.Fibers.ConditionVariable.{
  Pc, suspended, undefined, relock, finish_early, finish, mark, scheduled, outside,
  ConditionVariable, Move, lock_mutex, call_wait, wait_spin, push, suspend, call_notify_one,
  one_spin, nobody, call_notify_all, all_spin, leave, again, System, step, resume, Reach, here,
  next,
}
use concurrency_library.Fibers.ConditionVariable.Kept.{waits}
use concurrency_library.Fibers.ConditionVariable.Safety.{notified_in_order, wakes_suspended}
use concurrency_library.Fibers.ConditionVariable.NotifyAll.{notify_loop, notify_loop-awakens}

record Run : Type 0 where
  at : System
  reach : Reach 2 at

turn :
    (r : Run) (i : ℕ) {t : ConditionVariable} {p : Pc}
    → i < 2
    → Move r.at.condition i (r.at.pc i) t p
    → Run
turn r i lt mv = record { at = _; reach = next r.reach (step i lt mv) }

-- Fiber 0 has called `Wait`, which has released the mutex.
abbrev released : Run
unfolding turn
released =
    let r0 : Run = record { at = _; reach = here } in
    let r1 = turn r0 0 (omega arith) (lock_mutex refl) in turn r1 0 (omega arith) (call_wait refl)

abbrev asleep : Run
unfolding turn
asleep =
    let r1 = turn released 0 (omega arith) (wait_spin refl) in
    let r2 = turn r1 0 (omega arith) push in turn r2 0 (omega arith) suspend

abbrev notifier : Run
unfolding turn
notifier =
    let r1 = turn asleep 1 (omega arith) call_notify_all in turn r1 1 (omega arith) (all_spin refl)

abbrev woken : Run
unfolding turn
woken = record { at = _; reach = next notifier.reach (resume 1 0 (omega arith) again refl) }

wakes_suspended_example : notifier.at.pc 0 ≡ suspended
unfolding turn
wakes_suspended_example = wakes_suspended 1 0 notifier.reach refl (omega arith) again refl

-- Fiber 0 has the mutex again, and its `~Guard` finds the guard released.
abbrev returned : Run
unfolding turn
returned =
    let marked : Run = record { at = _; reach = next woken.reach (mark 0 refl) } in
    let r1 = turn marked 0 (omega arith) (relock refl) in turn r1 0 (omega arith) (finish refl)

notified_in_order_example :
    (returned.at.condition.arrived ≡ returned.at.condition.notified ++ returned.at.condition.queue)
    × ((j : ℕ) → has j returned.at.condition.queue ≡ waits (returned.at.pc j))
unfolding turn
notified_in_order_example = notified_in_order returned.reach refl

notify_loop-awakens_example :
    (t : System) × (notify_loop 2 notifier.at 1 ≡ some t)
    × Reach 2 t
    × (t.condition.queue ≡ [])
    × (t.condition.notified ≡ notifier.at.condition.notified ++ notifier.at.condition.queue)
    × ((k : ℕ)
        → t.pc k ≡ (if has k notifier.at.condition.queue then scheduled else notifier.at.pc k))
unfolding turn
notify_loop-awakens_example =
    notify_loop-awakens 1 2 notifier.reach refl (omega arith) refl (omega arith)

-- Fiber 1 takes the mutex and notifies before fiber 0 has pushed its awaiter.
abbrev early : Run
unfolding turn
early =
    let r1 = turn released 1 (omega arith) (lock_mutex refl) in
    let r2 = turn r1 1 (omega arith) call_notify_one in
    let r3 = turn r2 1 (omega arith) (one_spin refl) in
    let r4 = turn r3 1 (omega arith) (nobody refl) in
    let r5 = turn r4 1 (omega arith) leave in
    let r6 = turn r5 0 (omega arith) (wait_spin refl) in
    let r7 = turn r6 0 (omega arith) push in turn r7 0 (omega arith) suspend

early-missed :
    (early.at.pc 0 ≡ suspended) × (early.at.pc 1 ≡ outside) × (early.at.condition.notified ≡ [])
unfolding turn
early-missed = (refl, refl, refl)

-- Fiber 0 is resumed and has the mutex again before the thread that suspended it has set `released_`.
abbrev back : Run
unfolding turn
back =
    let r1 = turn woken 0 (omega arith) (relock refl) in turn r1 0 (omega arith) (finish_early refl)

back-twice : (back.at.pc 0 ≡ undefined) × (back.at.condition.twice ≡ true)
unfolding turn
back-twice = (refl, refl)
