-- ===== src/LockFree/Stack/Crew.antt =====
-- lockfree/stack.hpp: the thread that moves, its node, and the other threads at that node.
use concurrency_library.Common.{
  ℕ, ℕ_discrete, ◌+◌, ◌<◌, ◌≤◌, ◌≡◌, ◌≢◌, refl, sym, subst, true, false, update, ==_refl, ==_of_ne,
  arith,
}
use concurrency_library.LockFree.Stack.{Pc, Stack}
use concurrency_library.LockFree.Stack.Roles.{Role, role, target, is_role, About}
use concurrency_library.LockFree.Stack.Invariant.{
  Phase, free, fresh, stacked, removed, abandoned, doomed, in_use, Account, Fit, Inv,
}
use concurrency_library.LockFree.Stack.Accounts.{Account-same, Goes}
use concurrency_library.LockFree.Stack.Turn.{
  crew_before, crew_after, Turn, Turn-Inv, goes, counts, chain_same,
}

pub true-ne : true ≢ false
true-ne = cc

pub in_use-free : (ph : Phase) → in_use ph ≡ false → ph ≡ free
in_use-free free e = refl
in_use-free fresh e = absurd (true-ne e)
in_use-free (stacked c) e = absurd (true-ne e)
in_use-free (removed c) e = absurd (true-ne e)
in_use-free abandoned e = absurd (true-ne e)
in_use-free doomed e = absurd (true-ne e)

module _ {n : ℕ} {s : Stack} {pc : ℕ → Pc} (inv : Inv n s pc) (i : ℕ) (lt : i < n) (p : ℕ) where
  -- The account of the node of thread `i`, in a given phase.
  pub in_phase :
      {ph : Phase}
      → inv.phase p ≡ ph
      → Account p ph (s.nodes p).internal_count (crew_before inv i lt p)
  in_phase e =
      subst (λ ph. Account p ph (s.nodes p).internal_count (crew_before inv i lt p)) e
        (inv.account p)

  pub knows : (j : ℕ) → j < n → target (pc j) ≡ p → Fit (pc j) (inv.phase p) (s.nodes p)
  knows j hj e = subst (λ q. Fit (pc j) (inv.phase q) (s.nodes q)) e (inv.fits j hj)

  pub mine : (r : Role) → target (pc i) ≡ p → is_role r (role (pc i)) ≤ crew_before inv i lt p r
  mine r e = counts inv i lt p i lt e r

  -- The other threads at `p`, where no thread has taken it off the stack or views it.
  pub no_others :
      (r : Role) (j : ℕ)
      → j < n
      → target (pc j) ≡ p
      → crew_before inv i lt p r ≡ 0
      → is_role r (role (pc j)) ≡ 0
  no_others r j hj e none_there = omega (arith, counts inv i lt p j hj e r, none_there)

  pub same_phase : (q : ℕ) → update inv.phase p (inv.phase p) q ≡ inv.phase q
  same_phase q = elim (ℕ_discrete p q) [
    | yes e ↦ rw (sym e) (rw (==_refl p) refl)
    | no ne ↦ rw (==_of_ne p q ne) refl
  ]

  abbrev pub count : ℕ
  count = (s.nodes p).internal_count

  abbrev pub before : Role → ℕ
  before = crew_before inv i lt p

  abbrev pub after : Pc → Role → ℕ
  after = crew_after inv i lt p

  pub moves_from :
      {x : Role} (b : Pc)
      → About p (pc i)
      → About p b
      → role (pc i) ≡ x
      → Goes p count before (after b) x (role b)
  moves_from b from_p to_p e r =
      subst (λ k. after b r + is_role r k ≡ before r + is_role r (role b)) e
        (goes inv i lt p b from_p to_p r)

  -- A step that changes no node.
  pub quiet-Inv :
      (b : Pc)
      → About p (pc i)
      → About p b
      → role (pc i) ≡ role b
      → Fit b (inv.phase (target b)) (s.nodes (target b))
      → Inv n s (update pc i b)
  quiet-Inv b from_p to_p same fit =
      let kept =
        chain_same inv i lt p s inv.stack s.head (λ q ne. refl) refl refl (inv.phase p) refl
          inv.chain in
      let turn : Turn inv i lt p s b (inv.phase p) inv.stack = record {
        from_about = from_p;
        to_about = to_p;
        node_off = λ q ne. refl;
        use_on = inv.use_of p;
        use_off = λ q ne. refl;
        chain = kept.0;
        distinct = inv.distinct;
        replayed = inv.replayed;
        account =
            Account-same p count before (after b) (inv.phase p) (role b)
              (moves_from b from_p to_p same) (inv.account p);
        fit = rw (same_phase (target b)) fit;
        fit_others = λ j hj ne e. knows j hj e;
      } in
      Turn-Inv inv i lt p turn
