-- ===== src/LockFree/Stack/Pushing.antt =====
-- lockfree/stack.hpp: the steps of `Push` keep the invariant.
use concurrency_library.Common.{
  ℕ, ◌<◌, ◌≡◌, ◌≢◌, ◌^◌, refl, sym, ap, subst, ◌∙◌, true, false, some, ◌∷◌, update, ==_refl,
  ==_of_ne, arith, inl, inr,
}
use concurrency_library.LockFree.CountedPtr.{make}
use concurrency_library.LockFree.CountedPtr.Fields.{get-make}
use concurrency_library.LockFree.Stack.{Pc, idle, making, pushing, Stack, replay, run_event, pushed}
use concurrency_library.LockFree.Stack.Roles.{maker, viewer, popper, role, target, is_role}
use concurrency_library.LockFree.Stack.Invariant.{
  free, fresh, stacked, in_use, on_stack, Account, Chain, Inv,
}
use concurrency_library.LockFree.Stack.Accounts.{
  maker-fresh, Account-same, Account-allocate, Account-push, Fit-kept,
}
use concurrency_library.LockFree.Stack.Turn.{Turn, Turn-Inv, chain_off, off_list}
use concurrency_library.LockFree.Stack.Crew.{
  in_use-free, in_phase, knows, mine, no_others, moves_from, count, before, after,
}

module _ {n : ℕ} {s : Stack} {pc : ℕ → Pc} (inv : Inv n s pc) (i : ℕ) (lt : i < n) (p : ℕ) where
  pub allocate-Inv :
      (v : ℕ)
      → pc i ≡ idle
      → p ≢ 0
      → p < 2 ^ 48
      → s.allocated p ≡ false
      → Inv n
          (record s {
            nodes = update s.nodes p (record { value = v; internal_count = 0; next = 0 });
            allocated = update s.allocated p true;
          })
          (update pc i (making p))
  allocate-Inv v at nz hi out =
      let t : Stack = record s {
        nodes = update s.nodes p (record { value = v; internal_count = 0; next = 0 });
        allocated = update s.allocated p true;
      } in
      let e : inv.phase p ≡ free = in_use-free (inv.phase p) (sym (inv.use_of p) ∙ out) in
      let acc : Account p free (count inv i lt p) (before inv i lt p) = in_phase inv i lt p e in
      let kept =
        chain_off inv i lt p t fresh s.head inv.stack (λ q ne. rw (==_of_ne p q ne) refl)
          (off_list inv i lt p (ap on_stack e)) inv.chain in
      let turn : Turn inv i lt p t (making p) fresh inv.stack = record {
        from_about = inr (ap role at);
        to_about = inl refl;
        node_off = λ q ne. rw (==_of_ne p q ne) refl;
        use_on = rw (==_refl p) refl;
        use_off = λ q ne. rw (==_of_ne p q ne) refl;
        chain = kept.0;
        distinct = inv.distinct;
        replayed = inv.replayed ∙ ap some (sym kept.1);
        account = rw (==_refl p) (
            Account-allocate p (count inv i lt p) (before inv i lt p) (after inv i lt p (making p))
              (moves_from inv i lt p (making p) (inr (ap role at)) (inl refl) (ap role at)) acc
              (omega (arith, nz)) hi);
        fit = tt;
        fit_others = λ j hj ne e'.
            Fit-kept (pc j) (inv.phase p) fresh (s.nodes p) (t.nodes p)
              (inl (no_others inv i lt p popper j hj e' acc.pops))
              (inl (no_others inv i lt p viewer j hj e' acc.views)) (knows inv i lt p j hj e');
      } in
      Turn-Inv inv i lt p turn

  -- `Push` writes the link of its node.
  pub link-Inv :
      (w : ℕ)
      → target (pc i) ≡ p
      → role (pc i) ≡ maker
      → Inv n
          (record s { nodes = update s.nodes p (record (s.nodes p) { next = w }) })
          (update pc i (pushing p))
  link-Inv w aim making_it =
      let t : Stack = record s { nodes = update s.nodes p (record (s.nodes p) { next = w }) } in
      let e : inv.phase p ≡ fresh =
        maker-fresh p (count inv i lt p) (before inv i lt p) (inv.phase p) (inv.account p)
          (omega (arith, mine inv i lt p maker aim, ap (is_role maker) making_it)) in
      let acc : Account p fresh (count inv i lt p) (before inv i lt p) = in_phase inv i lt p e in
      let kept =
        chain_off inv i lt p t fresh s.head inv.stack (λ q ne. rw (==_of_ne p q ne) refl)
          (off_list inv i lt p (ap on_stack e)) inv.chain in
      let turn : Turn inv i lt p t (pushing p) fresh inv.stack = record {
        from_about = inl aim;
        to_about = inl refl;
        node_off = λ q ne. rw (==_of_ne p q ne) refl;
        use_on = inv.use_of p ∙ ap in_use e;
        use_off = λ q ne. refl;
        chain = kept.0;
        distinct = inv.distinct;
        replayed = inv.replayed ∙ ap some (sym kept.1);
        account = rw (==_refl p) (
            Account-same p (count inv i lt p) (before inv i lt p) (after inv i lt p (pushing p))
              fresh maker (moves_from inv i lt p (pushing p) (inl aim) (inl refl) making_it) acc);
        fit = tt;
        fit_others = λ j hj ne e'.
            Fit-kept (pc j) (inv.phase p) fresh (s.nodes p) (t.nodes p)
              (inl (no_others inv i lt p popper j hj e' acc.0.pops))
              (inl (no_others inv i lt p viewer j hj e' acc.0.views)) (knows inv i lt p j hj e');
      } in
      Turn-Inv inv i lt p turn

  pub push_swap-Inv :
      pc i ≡ pushing p
      → s.head ≡ (s.nodes p).next
      → Inv n
          (record s { head = make p 1; events = pushed (s.nodes p).value ∷ s.events })
          (update pc i idle)
  unfolding replay run_event
  push_swap-Inv at link =
      let t : Stack = record s { head = make p 1; events = pushed (s.nodes p).value ∷ s.events } in
      let aim : target (pc i) ≡ p = ap target at in
      let e : inv.phase p ≡ fresh =
        maker-fresh p (count inv i lt p) (before inv i lt p) (inv.phase p) (inv.account p)
          (omega (arith, mine inv i lt p maker aim, ap (is_role maker) (ap role at))) in
      let acc : Account p fresh (count inv i lt p) (before inv i lt p) = in_phase inv i lt p e in
      let out = off_list inv i lt p (ap on_stack e) in
      let kept = chain_off inv i lt p t (stacked 1) s.head inv.stack (λ q ne. refl) out inv.chain in
      let word = get-make p 1 acc.3 (omega arith) in
      let turn : Turn inv i lt p t idle (stacked 1) (p ∷ inv.stack) = record {
        from_about = inl aim;
        to_about = inr refl;
        node_off = λ q ne. refl;
        use_on = inv.use_of p ∙ ap in_use e;
        use_off = λ q ne. refl;
        chain = (
          word.0,
          (omega (arith, acc.2)),
          rw (==_refl p) (ap stacked (sym word.1)),
          subst (λ w. Chain s.nodes (update inv.phase p (stacked 1)) w inv.stack) link kept.0,
        );
        distinct = (out, inv.distinct);
        replayed = rw inv.replayed refl;
        account =
            Account-push p (count inv i lt p) (before inv i lt p) (after inv i lt p idle)
              (moves_from inv i lt p idle (inl aim) (inr refl) (ap role at)) acc;
        fit = tt;
        fit_others = λ j hj ne e'.
            Fit-kept (pc j) (inv.phase p) (stacked 1) (s.nodes p) (s.nodes p)
              (inl (no_others inv i lt p popper j hj e' acc.0.pops))
              (inl (no_others inv i lt p viewer j hj e' acc.0.views)) (knows inv i lt p j hj e');
      } in
      Turn-Inv inv i lt p turn
