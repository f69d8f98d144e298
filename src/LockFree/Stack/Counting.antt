-- ===== src/LockFree/Stack/Counting.antt =====
-- lockfree/stack.hpp: the popper's `fetch_add` keeps the invariant.
use concurrency_library.Common.{
  ℕ, add64, sub64, ◌<◌, ◌≡◌, ◌≢◌, refl, sym, ap, subst, ◌∙◌, some, update, ==_refl, ==_of_ne, arith,
  inl, inr,
}
use concurrency_library.LockFree.CountedPtr.{get_pointer, get_count}
use concurrency_library.LockFree.Stack.{Pc, idle, counting, deleting, Stack, added, with_internal}
use concurrency_library.LockFree.Stack.Roles.{popper, role, target, is_role, About}
use concurrency_library.LockFree.Stack.Invariant.{abandoned, doomed, in_use, on_stack, Fit, Inv}
use concurrency_library.LockFree.Stack.Accounts.{Account-count_last, Account-count_more, Fit-kept}
use concurrency_library.LockFree.Stack.Turn.{Turn, Turn-Inv, counts_two, chain_off, off_list}
use concurrency_library.LockFree.Stack.Crew.{
  true-ne, in_phase, knows, moves_from, count, before, after,
}

module _ {n : ℕ} {s : Stack} {pc : ℕ → Pc} (inv : Inv n s pc) (i : ℕ) (lt : i < n) (p : ℕ) where
  alone :
      {old owed result : ℕ} (j : ℕ)
      → j < n
      → i ≢ j
      → pc i ≡ counting old owed result
      → get_pointer old ≡ p
      → target (pc j) ≡ p
      → before inv i lt p popper ≡ 1
      → is_role popper (role (pc j)) ≡ 0
  alone j hj ne at aim e one = omega (
    arith,
    counts_two inv i lt p j hj ne (ap target at ∙ aim) e popper,
    ap (λ k. is_role popper (role k)) at,
    one,
  )

  -- The popper adds up the counters.
  pub count_last-Inv :
      (old owed result : ℕ)
      → get_pointer old ≡ p
      → pc i ≡ counting old owed result
      → (s.nodes p).internal_count ≡ sub64 0 (added old)
      → Inv n
          (record s { nodes = with_internal s p (add64 (s.nodes p).internal_count (added old)) })
          (update pc i (deleting p))
  count_last-Inv old owed result aim at none_left =
      let t : Stack = record s {
        nodes = with_internal s p (add64 (s.nodes p).internal_count (added old));
      } in
      let b : Pc = deleting p in
      let known : Fit (counting old owed result) (inv.phase p) (s.nodes p) =
        subst (λ k. Fit k (inv.phase p) (s.nodes p)) at
          (knows inv i lt p i lt (ap target at ∙ aim)) in
      let acc = in_phase inv i lt p known.0 in
      let kept =
        chain_off inv i lt p t doomed s.head inv.stack (λ q ne. rw (==_of_ne p q ne) refl)
          (off_list inv i lt p (ap on_stack known.0)) inv.chain in
      let from_p : About p (pc i) = inl (ap target at ∙ aim) in
      let turn : Turn inv i lt p t b doomed inv.stack = record {
        from_about = from_p;
        to_about = inl refl;
        node_off = λ q ne. rw (==_of_ne p q ne) refl;
        use_on = inv.use_of p ∙ ap in_use known.0;
        use_off = λ q ne. refl;
        chain = kept.0;
        distinct = inv.distinct;
        replayed = inv.replayed ∙ ap some (sym kept.1);
        account =
            Account-count_last p (count inv i lt p) (before inv i lt p) (after inv i lt p b)
              (get_count old) (moves_from inv i lt p b from_p (inl refl) (ap role at)) acc
              none_left;
        fit = tt;
        fit_others = λ j hj ne e.
            Fit-kept (pc j) (inv.phase p) doomed (s.nodes p) (t.nodes p)
              (inl (alone j hj ne at aim e acc.0.pops))
              (inr (λ on. absurd (true-ne (sym on)), rw (==_refl p) refl))
              (knows inv i lt p j hj e);
      } in
      Turn-Inv inv i lt p turn

  pub count_more-Inv :
      (old owed result : ℕ)
      → get_pointer old ≡ p
      → pc i ≡ counting old owed result
      → (s.nodes p).internal_count ≢ sub64 0 (added old)
      → Inv n
          (record s { nodes = with_internal s p (add64 (s.nodes p).internal_count (added old)) })
          (update pc i idle)
  count_more-Inv old owed result aim at some_left =
      let t : Stack = record s {
        nodes = with_internal s p (add64 (s.nodes p).internal_count (added old));
      } in
      let b : Pc = idle in
      let known : Fit (counting old owed result) (inv.phase p) (s.nodes p) =
        subst (λ k. Fit k (inv.phase p) (s.nodes p)) at
          (knows inv i lt p i lt (ap target at ∙ aim)) in
      let acc = in_phase inv i lt p known.0 in
      let kept =
        chain_off inv i lt p t abandoned s.head inv.stack (λ q ne. rw (==_of_ne p q ne) refl)
          (off_list inv i lt p (ap on_stack known.0)) inv.chain in
      let from_p : About p (pc i) = inl (ap target at ∙ aim) in
      let turn : Turn inv i lt p t b abandoned inv.stack = record {
        from_about = from_p;
        to_about = inr refl;
        node_off = λ q ne. rw (==_of_ne p q ne) refl;
        use_on = inv.use_of p ∙ ap in_use known.0;
        use_off = λ q ne. refl;
        chain = kept.0;
        distinct = inv.distinct;
        replayed = inv.replayed ∙ ap some (sym kept.1);
        account = rw (==_refl p) (
            Account-count_more p (count inv i lt p) (before inv i lt p) (after inv i lt p b)
              (get_count old) (moves_from inv i lt p b from_p (inr refl) (ap role at)) acc
              some_left);
        fit = tt;
        fit_others = λ j hj ne e.
            Fit-kept (pc j) (inv.phase p) abandoned (s.nodes p) (t.nodes p)
              (inl (alone j hj ne at aim e acc.0.pops))
              (inr (λ on. absurd (true-ne (sym on)), rw (==_refl p) refl))
              (knows inv i lt p j hj e);
      } in
      Turn-Inv inv i lt p turn
