-- ===== src/Fibers/WaitGroup/Tests.antt =====
-- Two fibers: fiber 1 waits until fiber 0 is done.
use concurrency_library.Common.{
  ℕ, ◌<◌, ◌≡◌, ◌≢◌, refl, true, none, some, ◌==◌, if◌then◌else◌, [], ◌∷◌, arith,
}
use concurrency_library.Fibers.WaitGroup.{
  Pc, outside, suspended, WaitGroup, Move, add, done_last, wait_yes, push, suspend_first, grab_none,
  grab_one, System, step, Reach, here, next,
}
use concurrency_library.Fibers.WaitGroup.Invariant.{pending}
use concurrency_library.Fibers.WaitGroup.Loop.{
  create_queue_from_stack, resume_loop, resume_loop-endless,
}
use concurrency_library.Fibers.WaitGroup.Safety.{schedules_suspended, suspended_pending}

record Run : Type 0 where
  at : System
  reach : Reach 2 at

turn : (r : Run) (i : ℕ) {t : WaitGroup} {p : Pc} → i < 2 → Move r.at.group i (r.at.pc i) t p → Run
turn r i lt mv = record { at = _; reach = next r.reach (step i lt mv) }

one-ne_zero : ◌≢◌ {A = ℕ} 1 0
one-ne_zero = omega arith

abbrev waits : Run
unfolding turn
waits =
    let r0 : Run = record { at = _; reach = here } in
    let r1 = turn r0 0 (omega arith) (add 1) in turn r1 1 (omega arith) (wait_yes one-ne_zero)

abbrev asleep : Run
unfolding turn
asleep =
    let r1 = turn waits 1 (omega arith) (push refl) in turn r1 1 (omega arith) (suspend_first refl)

abbrev resumes : Run
unfolding turn
resumes =
    let r1 = turn asleep 0 (omega arith) (done_last refl) in turn r1 0 (omega arith) (grab_one refl)

schedules_suspended_example : resumes.at.pc 1 ≡ suspended
unfolding turn
schedules_suspended_example = schedules_suspended 0 1 [] resumes.reach refl (omega arith) refl refl

suspended_pending_example :
    (pending 2 asleep.at.group asleep.at.pc 1 ≡ 1) × (asleep.at.group.resumed 1 ≡ true)
unfolding turn
suspended_pending_example = suspended_pending 1 asleep.reach refl refl

-- Fiber 0 is done between the test of `count_` and the push of fiber 1, which then sleeps for ever.
abbrev forgotten : Run
unfolding turn
forgotten =
    let r1 = turn waits 0 (omega arith) (done_last refl) in
    let r2 = turn r1 0 (omega arith) (grab_none refl) in
    let r3 = turn r2 1 (omega arith) (push refl) in turn r3 1 (omega arith) (suspend_first refl)

forgotten_asleep :
    (forgotten.at.group.count ≡ 0)
    × (forgotten.at.pc 0 ≡ outside)
    × (forgotten.at.pc 1 ≡ suspended)
    × (forgotten.at.group.head ≡ 1 ∷ [])
unfolding turn
forgotten_asleep = (refl, refl, refl, refl)

-- Awaiter 3 is at the top of the stack and awaiter 5 below it.
abbrev two : ℕ → ℕ
two a = if a == 3 then 5 else 0

resume_loop-endless_example :
    (q : ℕ) × (g : ℕ → ℕ) × (create_queue_from_stack 1 two 3 ≡ some (q, g))
    × ((fuel : ℕ) → resume_loop fuel g q ≡ none)
resume_loop-endless_example =
    resume_loop-endless two 3 5 [] (refl, (ground arith), (refl, (ground arith), refl))
      (refl, (refl, tt))
