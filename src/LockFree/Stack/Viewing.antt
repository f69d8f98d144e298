-- ===== src/LockFree/Stack/Viewing.antt =====
-- lockfree/stack.hpp: `IncreaseExternalCount` and the exchange of `TryPop` keep the invariant.
use concurrency_library.Common.{
  ℕ, ◌+◌, ◌<◌, ◌≡◌, ◌≢◌, ◌^◌, refl, sym, ap, subst, ◌∙◌, Bool, false, some, List, [], ◌∷◌, update,
  has, Distinct, ==_refl, arith, inl, inr, ◌||◌, List-cases,
}
use concurrency_library.LockFree.CountedPtr.{get_pointer, get_count, increase_count}
use concurrency_library.LockFree.CountedPtr.Fields.{pointer_kept, count_up}
use concurrency_library.LockFree.Stack.{
  Pc, idle, increasing, reading, swapping, took, Stack, replay, run_event, popped, found_empty,
  overflows,
}
use concurrency_library.LockFree.Stack.Roles.{popper, bystander, role, target, About}
use concurrency_library.LockFree.Stack.Invariant.{
  stacked, removed, in_use, on_stack, Fit, Chain, values, Inv,
}
use concurrency_library.LockFree.Stack.Accounts.{Account-same, Account-view, Account-pop, Fit-kept}
use concurrency_library.LockFree.Stack.Turn.{Turn, Turn-Inv, chain_off}
use concurrency_library.LockFree.Stack.Crew.{
  in_phase, knows, no_others, moves_from, count, before, after,
}

-- What stands at the top of the list when `head_` is not null.
record Top {n : ℕ} {s : Stack} {pc : ℕ → Pc} (inv : Inv n s pc) (old : ℕ) : Type 0 where
  rest : List ℕ
  front : inv.stack ≡ get_pointer old ∷ rest
  on : inv.phase (get_pointer old) ≡ stacked (get_count old)
  below : Chain s.nodes inv.phase (s.nodes (get_pointer old)).next rest
  away : has (get_pointer old) rest ≡ false
  distinct : Distinct rest

top :
    {n : ℕ} {s : Stack} {pc : ℕ → Pc} (inv : Inv n s pc) (old : ℕ)
    → s.head ≡ old
    → get_pointer old ≢ 0
    → Top inv old
top {n} {s} {pc} inv old same nz = elim (List-cases inv.stack) [
  | inl nil ↦ absurd (nz (subst (Chain s.nodes inv.phase old) nil chain))
  | inr more ↦ found more.0 more.1 more.2
]
  where
    chain : Chain s.nodes inv.phase old inv.stack
    chain = subst (λ w. Chain s.nodes inv.phase w inv.stack) same inv.chain

    found : (q : ℕ) (rest : List ℕ) → inv.stack ≡ q ∷ rest → Top inv old
    found q rest e =
        let links : Chain s.nodes inv.phase old (q ∷ rest) =
          subst (Chain s.nodes inv.phase old) e chain in
        let apart : Distinct (q ∷ rest) = subst Distinct e inv.distinct in
        record {
          rest = rest;
          front = e ∙ ap (λ p. p ∷ rest) (sym links.0);
          on = ap inv.phase links.0 ∙ links.2;
          below = subst (λ p. Chain s.nodes inv.phase (s.nodes p).next rest) (sym links.0) links.3;
          away = ap (λ p. has p rest) links.0 ∙ apart.0;
          distinct = apart.1;
        }

empty_list :
    {n : ℕ} {s : Stack} {pc : ℕ → Pc} (inv : Inv n s pc) → get_pointer s.head ≡ 0 → inv.stack ≡ []
empty_list {n} {s} inv null = elim (List-cases inv.stack) [
  | inl nil ↦ nil
  | inr more ↦ absurd (omega (arith, nonnull more.0 more.1 more.2))
]
  where
    nonnull : (q : ℕ) (rest : List ℕ) → inv.stack ≡ q ∷ rest → ◌≡◌ {A = ℕ} 0 1
    nonnull q rest e =
        let links : Chain s.nodes inv.phase s.head (q ∷ rest) =
          subst (Chain s.nodes inv.phase s.head) e inv.chain in
        omega (arith, links.0, links.1, null)

not_wrapped :
    (w : Bool) (old : ℕ)
    → (w || overflows old) ≡ false
    → get_pointer old ≢ 0
    → get_count old < 2 ^ 16
    → get_count old + 1 < 2 ^ 16
not_wrapped w old e nz small = ground (arith, e, nz, small)

module _ {n : ℕ} {s : Stack} {pc : ℕ → Pc} (inv : Inv n s pc) (i : ℕ) (lt : i < n) (p : ℕ) where
  pub view-Inv :
      (old : ℕ)
      → get_pointer old ≡ p
      → pc i ≡ increasing old
      → s.head ≡ old
      → p ≢ 0
      → (s.wrapped || overflows old) ≡ false
      → Inv n
          (record s { head = increase_count old; wrapped = s.wrapped || overflows old })
          (update pc i (reading (increase_count old)))
  view-Inv old aim at same nz fits_count =
      let t : Stack = record s {
        head = increase_count old;
        wrapped = s.wrapped || overflows old;
      } in
      let b : Pc = reading (increase_count old) in
      let c = get_count old in
      let first = top inv old same (rw aim nz) in
      let e : inv.phase p ≡ stacked c = ap inv.phase (sym aim) ∙ first.on in
      let acc = in_phase inv i lt p e in
      let small = not_wrapped s.wrapped old fits_count (rw aim nz) acc.2 in
      let away = ap (λ q. has q first.rest) (sym aim) ∙ first.away in
      let kept =
        chain_off inv i lt p t (stacked (c + 1)) (s.nodes p).next first.rest (λ q ne. refl) away
          (subst (λ q. Chain s.nodes inv.phase (s.nodes q).next first.rest) aim first.below) in
      let to_p : About p b = inl (pointer_kept old ∙ aim) in
      let turn : Turn inv i lt p t b (stacked (c + 1)) (p ∷ first.rest) = record {
        from_about = inr (ap role at);
        to_about = to_p;
        node_off = λ q ne. refl;
        use_on = inv.use_of p ∙ ap in_use e;
        use_off = λ q ne. refl;
        chain = (
          pointer_kept old ∙ aim,
          nz,
          rw (==_refl p) (ap stacked (sym (count_up old small))),
          kept.0,
        );
        distinct = (away, first.distinct);
        replayed =
            inv.replayed
            ∙ ap (λ ps. some (values s.nodes ps)) (first.front ∙ ap (λ q. q ∷ first.rest) aim);
        account =
            Account-view p (count inv i lt p) (before inv i lt p) (after inv i lt p b) c
              (moves_from inv i lt p b (inr (ap role at)) to_p (ap role at)) acc small;
        fit = rw (pointer_kept old ∙ aim) nz;
        fit_others = λ j hj ne e'.
            Fit-kept (pc j) (inv.phase p) (stacked (c + 1)) (s.nodes p) (s.nodes p)
              (inl (no_others inv i lt p popper j hj e' acc.0.pops))
              (inr (λ _. ap on_stack e, refl)) (knows inv i lt p j hj e');
      } in
      Turn-Inv inv i lt p turn

  pub find_empty-Inv :
      (old : ℕ)
      → p ≡ 0
      → pc i ≡ increasing old
      → s.head ≡ old
      → get_pointer old ≡ 0
      → Inv n
          (record s { head = increase_count old; events = found_empty ∷ s.events })
          (update pc i idle)
  unfolding replay run_event
  find_empty-Inv old z at same null =
      let t : Stack = record s { head = increase_count old; events = found_empty ∷ s.events } in
      let nil = empty_list inv (ap get_pointer same ∙ null) in
      let b : Pc = idle in
      let turn : Turn inv i lt p t b (inv.phase p) [] = record {
        from_about = inr (ap role at);
        to_about = inr refl;
        node_off = λ q ne. refl;
        use_on = inv.use_of p;
        use_off = λ q ne. refl;
        chain = pointer_kept old ∙ null;
        distinct = tt;
        replayed = rw (inv.replayed ∙ ap (λ ps. some (values s.nodes ps)) nil) refl;
        account =
            Account-same p (count inv i lt p) (before inv i lt p) (after inv i lt p b) (inv.phase p)
              bystander (moves_from inv i lt p b (inr (ap role at)) (inr refl) (ap role at))
              (inv.account p);
        fit = tt;
        fit_others = λ j hj ne e. knows inv i lt p j hj e;
      } in
      Turn-Inv inv i lt p turn

  pub pop_swap-Inv :
      (old w : ℕ)
      → get_pointer old ≡ p
      → pc i ≡ swapping old w
      → s.head ≡ old
      → Inv n
          (record s { head = w; events = popped (s.nodes p).value ∷ s.events })
          (update pc i (took old (s.nodes p).value))
  unfolding replay run_event
  pop_swap-Inv old w aim at same =
      let t : Stack = record s { head = w; events = popped (s.nodes p).value ∷ s.events } in
      let b : Pc = took old (s.nodes p).value in
      let c = get_count old in
      let known : Fit (swapping old w) (inv.phase p) (s.nodes p) =
        subst (λ k. Fit k (inv.phase p) (s.nodes p)) at
          (knows inv i lt p i lt (ap target at ∙ aim)) in
      let first = top inv old same known.0 in
      let e : inv.phase p ≡ stacked c = ap inv.phase (sym aim) ∙ first.on in
      let acc = in_phase inv i lt p e in
      let kept =
        chain_off inv i lt p t (removed c) (s.nodes p).next first.rest (λ q ne. refl)
          (ap (λ q. has q first.rest) (sym aim) ∙ first.away)
          (subst (λ q. Chain s.nodes inv.phase (s.nodes q).next first.rest) aim first.below) in
      let from_p : About p (pc i) = inl (ap target at ∙ aim) in
      let turn : Turn inv i lt p t b (removed c) first.rest = record {
        from_about = from_p;
        to_about = inl aim;
        node_off = λ q ne. refl;
        use_on = inv.use_of p ∙ ap in_use e;
        use_off = λ q ne. refl;
        chain =
            subst (λ v. Chain s.nodes (update inv.phase p (removed c)) v first.rest)
              (sym (known.1 (ap on_stack e))) kept.0;
        distinct = first.distinct;
        replayed =
            rw
              (inv.replayed
                ∙ ap (λ ps. some (values s.nodes ps)) (first.front ∙ ap (λ q. q ∷ first.rest) aim))
              (rw (==_refl (s.nodes p).value) refl);
        account =
            Account-pop p (count inv i lt p) (before inv i lt p) (after inv i lt p b) c
              (moves_from inv i lt p b from_p (inl aim) (ap role at)) acc;
        fit = rw (aim, ==_refl p) (refl, refl);
        fit_others = λ j hj ne e'.
            Fit-kept (pc j) (inv.phase p) (removed c) (s.nodes p) (s.nodes p)
              (inl (no_others inv i lt p popper j hj e' acc.0.pops))
              (inr (λ _. ap on_stack e, refl)) (knows inv i lt p j hj e');
      } in
      Turn-Inv inv i lt p turn
