-- ===== src/LockFree/Stack/Tests.antt =====
-- Two threads: thread 0 pushes 7, both look at its node, and thread 1 takes it.
use concurrency_library.Common.{
  ℕ, ◌<◌, ◌≡◌, ◌≢◌, sub64, dec64, refl, true, some, List, length, arith,
}
use concurrency_library.LockFree.CountedPtr.{make, get_pointer, get_count, increase_count}
use concurrency_library.LockFree.Stack.{
  Pc, Stack, Move, added, allocate, load_next, push_swap, load_head, view, read_next, pop_swap,
  pop_fail, leave_more, take_value, count_last, System, step, Reach, here, next_step, replay,
}
use concurrency_library.LockFree.Stack.Roles.{bystander, role}
use concurrency_library.LockFree.Stack.Invariant.{values}
use concurrency_library.LockFree.Stack.Destroy.{destroy, without, destroy-frees}
use concurrency_library.LockFree.Stack.Safety.{
  Linked, linearizable, returns_popped, no_use_after_free, deletes_alone,
}

record Run : Type 0 where
  at : System
  reach : Reach 2 at

turn : (r : Run) (i : ℕ) {t : Stack} {p : Pc} → i < 2 → Move r.at.stack (r.at.pc i) t p → Run
turn r i lt mv = record { at = _; reach = next_step r.reach (step i lt mv) }

abbrev pushed_7 : Run
unfolding turn
pushed_7 =
    let r0 : Run = record { at = _; reach = here } in
    let r1 = turn r0 0 (omega arith) (allocate 7 16 (omega arith) (omega arith) refl) in
    let r2 = turn r1 0 (omega arith) load_next in turn r2 0 (omega arith) (push_swap refl)

nonnull : get_pointer (make 16 1) ≢ 0
unfolding make get_pointer
nonnull = omega arith

nonnull_again : get_pointer (increase_count (make 16 1)) ≢ 0
unfolding make get_pointer increase_count
nonnull_again = omega arith

-- Both view the node, and thread 1 takes it.
abbrev taken : Run
unfolding turn
taken =
    let r1 = turn pushed_7 0 (omega arith) load_head in
    let r2 = turn r1 0 (omega arith) (view refl nonnull) in
    let r3 = turn r2 1 (omega arith) load_head in
    let r4 = turn r3 1 (omega arith) (view refl nonnull_again) in
    let r5 = turn r4 1 (omega arith) read_next in turn r5 1 (omega arith) (pop_swap refl)

abbrev read : Run
unfolding turn
read = turn taken 1 (omega arith) take_value

abbrev viewed : ℕ
viewed = increase_count (make 16 1)

moved_on : ◌≢◌ {A = ℕ} 0 viewed
unfolding make increase_count
moved_on = omega arith

not_one : ◌≢◌ {A = ℕ} 0 1
not_one = omega arith

sum_zero : ◌≡◌ {A = ℕ} (dec64 0) (sub64 0 (added (increase_count viewed)))
unfolding make increase_count get_count
sum_zero = refl

at_16 : get_pointer (increase_count viewed) ≡ 16
unfolding make increase_count get_pointer
at_16 = refl

-- Thread 0 finds that its node has gone, and leaves it; thread 1 is the one that deletes it.
abbrev left : Run
unfolding turn make increase_count get_pointer
left =
    let r1 = turn read 0 (omega arith) read_next in
    let r2 = turn r1 0 (omega arith) (pop_fail moved_on) in
    turn r2 0 (omega arith) (leave_more not_one)

abbrev doomed_16 : Run
unfolding turn make increase_count get_pointer get_count
doomed_16 = turn left 1 (omega arith) (count_last refl)

linearizable_example :
    (ps : List ℕ) × Linked taken.at.stack.nodes taken.at.stack.head ps
    × (replay taken.at.stack.events ≡ some (values taken.at.stack.nodes ps))
unfolding get_pointer make get_count increase_count taken
linearizable_example = linearizable taken.reach refl

returns_popped_example : ◌≡◌ {A = ℕ} 7 7
unfolding turn make increase_count get_pointer get_count
returns_popped_example =
    returns_popped 1 (increase_count viewed) 7 7 read.reach refl (omega arith) refl

no_use_after_free_example : doomed_16.at.stack.allocated 16 ≡ true
unfolding turn make increase_count get_pointer get_count
no_use_after_free_example = no_use_after_free 1 doomed_16.reach refl (omega arith) busy
  where
    busy : role (doomed_16.at.pc 1) ≢ bystander
    busy = cc

deletes_alone_example : ◌≡◌ {A = ℕ} 1 1
unfolding turn make increase_count get_pointer get_count
deletes_alone_example =
    deletes_alone 1 1 doomed_16.reach refl (omega arith) (omega arith) refl busy refl
  where
    busy : role (doomed_16.at.pc 1) ≢ bystander
    busy = cc

destroy-frees_example :
    (ps : List ℕ) × Linked pushed_7.at.stack.nodes pushed_7.at.stack.head ps
    × (destroy
          (length ps)
          pushed_7.at.stack.nodes
          pushed_7.at.stack.head
          pushed_7.at.stack.allocated
        ≡ some (without ps pushed_7.at.stack.allocated))
unfolding pushed_7
destroy-frees_example = destroy-frees pushed_7.reach refl
