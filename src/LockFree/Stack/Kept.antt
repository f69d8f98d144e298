-- ===== src/LockFree/Stack/Kept.antt =====
-- lockfree/stack.hpp: every step keeps the invariant of the stack, while no counter of a node has
-- passed its largest value.
use concurrency_library.Common.{
  ℕ, ◌<◌, ◌≡◌, refl, sym, ap, subst, Bool, false, [], update, arith, weigh-eq_zero, inl, inr, ◌||◌,
}
use concurrency_library.LockFree.CountedPtr.{get_pointer}
use concurrency_library.LockFree.Stack.{
  Pc, idle, increasing, reading, swapping, took, counting, leaving, Stack, replay, Move, allocate,
  load_next, push_swap, push_retry, load_head, view, find_empty, reload, read_next, pop_swap,
  pop_fail, take_value, count_last, count_more, leave_last, leave_more, delete, drop, System, step,
  Reach, here, next_step, overflows,
}
use concurrency_library.LockFree.Stack.Roles.{
  Role, maker, viewer, popper, deleter, bystander, role, target, is_role, plays, crowd,
}
use concurrency_library.LockFree.Stack.Invariant.{free, Fit, Inv}
use concurrency_library.LockFree.Stack.Crew.{knows, quiet-Inv}
use concurrency_library.LockFree.Stack.Pushing.{allocate-Inv, link-Inv, push_swap-Inv}
use concurrency_library.LockFree.Stack.Viewing.{view-Inv, find_empty-Inv, pop_swap-Inv}
use concurrency_library.LockFree.Stack.Counting.{count_last-Inv, count_more-Inv}
use concurrency_library.LockFree.Stack.Leaving.{leave_more-Inv, leave_last-Inv, free-Inv}

or_left : (a b : Bool) → (a || b) ≡ false → a ≡ false
or_left a b e = ground arith

-- `at` is where the thread that moves stands.
Move-Inv :
    {n : ℕ} {s t : Stack} {pc : ℕ → Pc} {a b : Pc} (inv : Inv n s pc) (i : ℕ)
    → i < n
    → pc i ≡ a
    → Move s a t b
    → t.wrapped ≡ false
    → Inv n t (update pc i b)
Move-Inv inv i lt at (allocate v p nz hi out) _ = allocate-Inv inv i lt p v at nz hi out
Move-Inv {s} inv i lt at (load_next {p}) _ = link-Inv inv i lt p s.head (ap target at) (ap role at)
Move-Inv {s} inv i lt at (push_retry {p}) _ = link-Inv inv i lt p s.head (ap target at) (ap role at)
Move-Inv inv i lt at (push_swap {p} same) _ = push_swap-Inv inv i lt p at same
Move-Inv {s} inv i lt at load_head _ =
    quiet-Inv inv i lt 0 (increasing s.head) (inr (ap role at)) (inr refl) (ap role at) tt
Move-Inv inv i lt at (view {old} same nz) fine =
    view-Inv inv i lt (get_pointer old) old refl at same nz fine
Move-Inv inv i lt at (find_empty {old} same null) _ =
    find_empty-Inv inv i lt 0 old refl at same null
Move-Inv {s} inv i lt at (reload other) _ =
    quiet-Inv inv i lt 0 (increasing s.head) (inr (ap role at)) (inr refl) (ap role at) tt
Move-Inv {s} {pc} inv i lt at (read_next {old}) _ =
    let known : Fit (reading old) (inv.phase (get_pointer old)) (s.nodes (get_pointer old)) =
      subst (λ k. Fit k (inv.phase (get_pointer old)) (s.nodes (get_pointer old))) at
        (knows inv i lt (get_pointer old) i lt (ap target at)) in
    quiet-Inv inv i lt (get_pointer old) (swapping old (s.nodes (get_pointer old)).next)
      (inl (ap target at)) (inl refl) (ap role at) (known, λ _. refl)
Move-Inv inv i lt at (pop_swap {old} {w} same) _ =
    pop_swap-Inv inv i lt (get_pointer old) old w refl at same
Move-Inv {s} inv i lt at (pop_fail {old} other) _ =
    quiet-Inv inv i lt (get_pointer old) (leaving (get_pointer old) s.head) (inl (ap target at))
      (inl refl) (ap role at) tt
Move-Inv {s} inv i lt at (take_value {old} {owed}) _ =
    let known : Fit (took old owed) (inv.phase (get_pointer old)) (s.nodes (get_pointer old)) =
      subst (λ k. Fit k (inv.phase (get_pointer old)) (s.nodes (get_pointer old))) at
        (knows inv i lt (get_pointer old) i lt (ap target at)) in
    quiet-Inv inv i lt (get_pointer old) (counting old owed (s.nodes (get_pointer old)).value)
      (inl (ap target at)) (inl refl) (ap role at) (known.0, sym known.1)
Move-Inv inv i lt at (count_last {old} {owed} {result} e) _ =
    count_last-Inv inv i lt (get_pointer old) old owed result refl at e
Move-Inv inv i lt at (count_more {old} {owed} {result} e) _ =
    count_more-Inv inv i lt (get_pointer old) old owed result refl at e
Move-Inv inv i lt at (leave_last {p} {old} e) _ = leave_last-Inv inv i lt p old at e
Move-Inv inv i lt at (leave_more {p} {old} e) _ = leave_more-Inv inv i lt p old at e
Move-Inv inv i lt at (delete {p}) _ = free-Inv inv i lt p idle (ap target at) (ap role at) refl tt
Move-Inv inv i lt at (drop {p} {old}) _ =
    free-Inv inv i lt p (increasing old) (ap target at) (ap role at) refl tt

-- A counter that has passed its largest value stays on record.
Move-wrapped : {s t : Stack} {a b : Pc} → Move s a t b → t.wrapped ≡ false → s.wrapped ≡ false
Move-wrapped {s} (view {old} same nz) fine = or_left s.wrapped (overflows old) fine
Move-wrapped (allocate v p nz hi out) fine = fine
Move-wrapped load_next fine = fine
Move-wrapped (push_swap same) fine = fine
Move-wrapped push_retry fine = fine
Move-wrapped load_head fine = fine
Move-wrapped (find_empty same null) fine = fine
Move-wrapped (reload other) fine = fine
Move-wrapped read_next fine = fine
Move-wrapped (pop_swap same) fine = fine
Move-wrapped (pop_fail other) fine = fine
Move-wrapped take_value fine = fine
Move-wrapped (count_last e) fine = fine
Move-wrapped (count_more e) fine = fine
Move-wrapped (leave_last e) fine = fine
Move-wrapped (leave_more e) fine = fine
Move-wrapped delete fine = fine
Move-wrapped drop fine = fine

pub Reach-Inv : {n : ℕ} {s : System} → Reach n s → s.stack.wrapped ≡ false → Inv n s.stack s.pc
unfolding replay get_pointer
Reach-Inv {n} here _ = record {
  phase = λ _. free;
  stack = [];
  chain = refl;
  distinct = tt;
  account = λ p. record {
    makes = nobody n maker p refl;
    views = nobody n viewer p refl;
    pops = nobody n popper p refl;
    deletes = nobody n deleter p refl;
  };
  use_of = λ p. refl;
  fits = λ j hj. tt;
  replayed = refl;
}
  where
    nobody : (n : ℕ) (r : Role) (p : ℕ) → is_role r bystander ≡ 0 → crowd n (λ _. idle) r p ≡ 0
    nobody n r p e = weigh-eq_zero (plays r p) n (λ _. idle) (λ i. ground (arith, e))
Reach-Inv (next_step r (step i lt mv)) fine =
    Move-Inv (Reach-Inv r (Move-wrapped mv fine)) i lt refl mv fine
