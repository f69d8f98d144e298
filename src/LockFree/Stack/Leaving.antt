-- ===== src/LockFree/Stack/Leaving.antt =====
-- lockfree/stack.hpp: `fetch_sub` and `delete` keep the invariant.
use concurrency_library.Common.{
  ℕ, dec64, ◌<◌, ◌≡◌, ◌≢◌, refl, sym, ap, subst, ◌∙◌, false, some, update, ==_refl, ==_of_ne, arith,
  inl, inr,
}
use concurrency_library.LockFree.Stack.{Pc, increasing, leaving, dropping, Stack, with_internal}
use concurrency_library.LockFree.Stack.Roles.{
  viewer, popper, deleter, bystander, role, target, is_role, About,
}
use concurrency_library.LockFree.Stack.Invariant.{free, doomed, in_use, on_stack, Fit, Inv}
use concurrency_library.LockFree.Stack.Accounts.{
  deleter-doomed, Account-free, Account-leave_more, Account-leave_last, Goes, Fit-kept,
}
use concurrency_library.LockFree.Stack.Turn.{Turn, Turn-Inv, chain_off, chain_same, off_list}
use concurrency_library.LockFree.Stack.Crew.{
  true-ne, in_phase, knows, mine, no_others, moves_from, count, before, after,
}

module _ {n : ℕ} {s : Stack} {pc : ℕ → Pc} (inv : Inv n s pc) (i : ℕ) (lt : i < n) (p : ℕ) where
  -- A viewer takes itself off the internal counter.
  pub leave_more-Inv :
      (old : ℕ)
      → pc i ≡ leaving p old
      → (s.nodes p).internal_count ≢ 1
      → Inv n
          (record s { nodes = with_internal s p (dec64 (s.nodes p).internal_count) })
          (update pc i (increasing old))
  leave_more-Inv old at other =
      let t : Stack = record s { nodes = with_internal s p (dec64 (s.nodes p).internal_count) } in
      let b : Pc = increasing old in
      let kept =
        chain_same inv i lt p t inv.stack s.head (λ q ne. rw (==_of_ne p q ne) refl)
          (rw (==_refl p) refl) (rw (==_refl p) refl) (inv.phase p) refl inv.chain in
      let from_p : About p (pc i) = inl (ap target at) in
      let turn : Turn inv i lt p t b (inv.phase p) inv.stack = record {
        from_about = from_p;
        to_about = inr refl;
        node_off = λ q ne. rw (==_of_ne p q ne) refl;
        use_on = inv.use_of p;
        use_off = λ q ne. refl;
        chain = kept.0;
        distinct = inv.distinct;
        replayed = inv.replayed ∙ ap some (sym kept.1);
        account = rw (==_refl p) (
            Account-leave_more p (count inv i lt p) (before inv i lt p) (after inv i lt p b)
              (inv.phase p) (moves_from inv i lt p b from_p (inr refl) (ap role at)) (inv.account p)
              other);
        fit = tt;
        fit_others = λ j hj ne e.
            Fit-kept (pc j) (inv.phase p) (inv.phase p) (s.nodes p) (t.nodes p)
              (inr (refl, rw (==_refl p) refl)) (inr (λ on. on, rw (==_refl p) refl))
              (knows inv i lt p j hj e);
      } in
      Turn-Inv inv i lt p turn

  pub leave_last-Inv :
      (old : ℕ)
      → pc i ≡ leaving p old
      → (s.nodes p).internal_count ≡ 1
      → Inv n
          (record s { nodes = with_internal s p (dec64 (s.nodes p).internal_count) })
          (update pc i (dropping p old))
  leave_last-Inv old at one =
      let t : Stack = record s { nodes = with_internal s p (dec64 (s.nodes p).internal_count) } in
      let b : Pc = dropping p old in
      let from_p : About p (pc i) = inl (ap target at) in
      let last =
        Account-leave_last p (count inv i lt p) (before inv i lt p) (after inv i lt p b)
          (inv.phase p) (moves_from inv i lt p b from_p (inl refl) (ap role at)) (inv.account p)
          one in
      let acc = in_phase inv i lt p last.0 in
      let kept =
        chain_off inv i lt p t doomed s.head inv.stack (λ q ne. rw (==_of_ne p q ne) refl)
          (off_list inv i lt p (ap on_stack last.0)) inv.chain in
      let turn : Turn inv i lt p t b doomed inv.stack = record {
        from_about = from_p;
        to_about = inl refl;
        node_off = λ q ne. rw (==_of_ne p q ne) refl;
        use_on = inv.use_of p ∙ ap in_use last.0;
        use_off = λ q ne. refl;
        chain = kept.0;
        distinct = inv.distinct;
        replayed = inv.replayed ∙ ap some (sym kept.1);
        account = last.1;
        fit = tt;
        fit_others = λ j hj ne e.
            Fit-kept (pc j) (inv.phase p) doomed (s.nodes p) (t.nodes p)
              (inl (no_others inv i lt p popper j hj e acc.0.pops))
              (inr (λ on. absurd (true-ne (sym on)), rw (==_refl p) refl))
              (knows inv i lt p j hj e);
      } in
      Turn-Inv inv i lt p turn

  -- `delete`.
  pub free-Inv :
      (b : Pc)
      → target (pc i) ≡ p
      → role (pc i) ≡ deleter
      → role b ≡ bystander
      → Fit b (update inv.phase p free (target b)) (s.nodes (target b))
      → Inv n (record s { allocated = update s.allocated p false }) (update pc i b)
  free-Inv b aim deleting_it done fit =
      let t : Stack = record s { allocated = update s.allocated p false } in
      let e : inv.phase p ≡ doomed =
        deleter-doomed p (count inv i lt p) (before inv i lt p) (inv.phase p) (inv.account p)
          (omega (arith, mine inv i lt p deleter aim, ap (is_role deleter) deleting_it)) in
      let acc = in_phase inv i lt p e in
      let kept =
        chain_off inv i lt p t free s.head inv.stack (λ q ne. refl)
          (off_list inv i lt p (ap on_stack e)) inv.chain in
      let turn : Turn inv i lt p t b free inv.stack = record {
        from_about = inl aim;
        to_about = inr done;
        node_off = λ q ne. refl;
        use_on = rw (==_refl p) refl;
        use_off = λ q ne. rw (==_of_ne p q ne) refl;
        chain = kept.0;
        distinct = inv.distinct;
        replayed = inv.replayed;
        account =
            Account-free p (count inv i lt p) (before inv i lt p) (after inv i lt p b)
              (subst (Goes p (count inv i lt p) (before inv i lt p) (after inv i lt p b) deleter)
                done (moves_from inv i lt p b (inl aim) (inr done) deleting_it))
              acc;
        fit = fit;
        fit_others = λ j hj ne e'.
            Fit-kept (pc j) (inv.phase p) free (s.nodes p) (s.nodes p)
              (inl (no_others inv i lt p popper j hj e' acc.pops))
              (inl (no_others inv i lt p viewer j hj e' acc.views)) (knows inv i lt p j hj e');
      } in
      Turn-Inv inv i lt p turn
