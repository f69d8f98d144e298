-- ===== src/LockFree/Stack/Turn.antt =====
-- lockfree/stack.hpp: the invariant after a step of one thread that concerns one node.
use concurrency_library.Common.{
  ℕ, ◌+◌, ◌<◌, ◌≤◌, ◌≡◌, ◌≢◌, refl, sym, subst, fun_ext, true, false, List, has, Distinct, update,
  some, Bool-cases, ==_refl, ==_of_ne, arith, weigh-ge, weigh-ge_two, ℕ_discrete, inl, inr, ap, ◌∙◌,
}
use concurrency_library.LockFree.Stack.{Pc, Stack, replay}
use concurrency_library.LockFree.Stack.Roles.{
  Role, role, target, is_role, plays, crowd, About, plays-here, crowd-here, crowd-elsewhere,
}
use concurrency_library.LockFree.Stack.Invariant.{
  Phase, in_use, on_stack, Account, Fit, Chain, values, Inv, Chain-has, Chain-kept,
}

module _ {n : ℕ} {s : Stack} {pc : ℕ → Pc} (inv : Inv n s pc) (i : ℕ) (lt : i < n) (p : ℕ) where
  abbrev pub crew_before : Role → ℕ
  crew_before r = crowd n pc r p

  abbrev pub crew_after : Pc → Role → ℕ
  crew_after b r = crowd n (update pc i b) r p

  -- The step takes thread `i` to `b`, node `p` to phase `ph`, and the stack to `t` with list `ps`.
  pub record Turn (t : Stack) (b : Pc) (ph : Phase) (ps : List ℕ) : Type 0 where
    pub from_about : About p (pc i)
    pub to_about : About p b
    pub node_off : (q : ℕ) → p ≢ q → t.nodes q ≡ s.nodes q
    pub use_on : t.allocated p ≡ in_use ph
    pub use_off : (q : ℕ) → p ≢ q → t.allocated q ≡ s.allocated q
    pub chain : Chain t.nodes (update inv.phase p ph) t.head ps
    pub distinct : Distinct ps
    pub replayed : replay t.events ≡ some (values t.nodes ps)
    pub account : Account p ph (t.nodes p).internal_count (crew_after b)
    pub fit : Fit b (update inv.phase p ph (target b)) (t.nodes (target b))
    pub fit_others : (j : ℕ) → j < n → i ≢ j → target (pc j) ≡ p → Fit (pc j) ph (t.nodes p)

  module _ {t : Stack} {b : Pc} {ph : Phase} {ps : List ℕ} (turn : Turn t b ph ps) where
    all_accounts :
        (q : ℕ)
        → Account q
            (update inv.phase p ph q)
            (t.nodes q).internal_count
            (λ r. crowd n (update pc i b) r q)
    all_accounts q = elim (ℕ_discrete p q) [
      | yes e ↦
          subst
            (λ q.
              Account q (update inv.phase p ph q) (t.nodes q).internal_count
                (λ r. crowd n (update pc i b) r q))
            e (rw (==_refl p) turn.account)
      | no ne ↦
          rw (==_of_ne p q ne, turn.node_off q ne)
            (subst (Account q (inv.phase q) (s.nodes q).internal_count) (crews q ne)
              (inv.account q))
    ]
      where
        crews :
            (q : ℕ)
            → p ≢ q
            → ◌≡◌ {A = Role → ℕ} (λ r. crowd n pc r q) (λ r. crowd n (update pc i b) r q)
        crews q ne =
            fun_ext (λ r. sym (crowd-elsewhere n i pc b lt r p q turn.from_about turn.to_about ne))

    use_kept : (q : ℕ) → t.allocated q ≡ in_use (update inv.phase p ph q)
    use_kept q = elim (ℕ_discrete p q) [
      | yes e ↦ rw (sym e) (rw (==_refl p) turn.use_on)
      | no ne ↦ rw (==_of_ne p q ne) (turn.use_off q ne ∙ inv.use_of q)
    ]

    fits_kept :
        (j : ℕ)
        → j < n
        → Fit
            (update pc i b j)
            (update inv.phase p ph (target (update pc i b j)))
            (t.nodes (target (update pc i b j)))
    fits_kept j hj = elim (ℕ_discrete i j) [
      | yes e ↦ rw (sym e) (rw (==_refl i) turn.fit)
      | no ne ↦ rw (==_of_ne i j ne) (elim (ℕ_discrete p (target (pc j))) [
        | yes e ↦ rw (sym e) (rw (==_refl p) (turn.fit_others j hj ne (sym e)))
        | no off ↦
            rw (==_of_ne p (target (pc j)) off, turn.node_off (target (pc j)) off) (inv.fits j hj)
      ])
    ]

    pub Turn-Inv : Inv n t (update pc i b)
    Turn-Inv = record {
      phase = update inv.phase p ph;
      stack = ps;
      chain = turn.chain;
      distinct = turn.distinct;
      account = all_accounts;
      use_of = use_kept;
      fits = fits_kept;
      replayed = turn.replayed;
    }

  pub goes :
      (b : Pc)
      → About p (pc i)
      → About p b
      → (r : Role) → crew_after b r + is_role r (role (pc i)) ≡ crew_before r + is_role r (role b)
  goes b x y r = crowd-here n i pc b lt r p x y

  -- A thread at `p` counts there.
  pub counts :
      (j : ℕ) → j < n → target (pc j) ≡ p → (r : Role) → is_role r (role (pc j)) ≤ crew_before r
  counts j hj e r = omega (arith, weigh-ge (plays r p) n j pc hj, plays-here r p (pc j) (inl e))

  pub counts_two :
      (j : ℕ)
      → j < n
      → i ≢ j
      → target (pc i) ≡ p
      → target (pc j) ≡ p
      → (r : Role) → is_role r (role (pc i)) + is_role r (role (pc j)) ≤ crew_before r
  counts_two j hj ne e e' r = omega (
    arith,
    weigh-ge_two (plays r p) n i j pc lt hj ne,
    plays-here r p (pc i) (inl e),
    plays-here r p (pc j) (inl e'),
  )

  -- The list where `p` is not on it.
  pub chain_off :
      (t : Stack) (ph : Phase) (w : ℕ) (ps : List ℕ)
      → ((q : ℕ) → p ≢ q → t.nodes q ≡ s.nodes q)
      → has p ps ≡ false
      → Chain s.nodes inv.phase w ps
      → Chain t.nodes (update inv.phase p ph) w ps × (values t.nodes ps ≡ values s.nodes ps)
  chain_off t ph w ps off out h =
      Chain-kept s.nodes t.nodes inv.phase (update inv.phase p ph) w ps
        (λ q e. apart q (λ same. absurd (true_ne (sym e ∙ ap (λ q. has q ps) (sym same) ∙ out)))) h
    where
      true_ne : true ≢ false
      true_ne = cc

      apart :
          (q : ℕ)
          → p ≢ q
          → ((t.nodes q).next ≡ (s.nodes q).next)
            × ((t.nodes q).value ≡ (s.nodes q).value)
            × (update inv.phase p ph q ≡ inv.phase q)
      apart q ne =
          (ap (λ nd. nd.next) (off q ne), ap (λ nd. nd.value) (off q ne), rw (==_of_ne p q ne) refl)

  -- The list where `p` keeps its link, value and phase.
  pub chain_same :
      (t : Stack) (ps : List ℕ) (w : ℕ)
      → ((q : ℕ) → p ≢ q → t.nodes q ≡ s.nodes q)
      → (t.nodes p).next ≡ (s.nodes p).next
      → (t.nodes p).value ≡ (s.nodes p).value
      → (ph : Phase) → ph ≡ inv.phase p
      → Chain s.nodes inv.phase w ps
      → Chain t.nodes (update inv.phase p ph) w ps × (values t.nodes ps ≡ values s.nodes ps)
  chain_same t ps w off link value ph e h =
      Chain-kept s.nodes t.nodes inv.phase (update inv.phase p ph) w ps (λ q _. agree q) h
    where
      agree :
          (q : ℕ)
          → ((t.nodes q).next ≡ (s.nodes q).next)
            × ((t.nodes q).value ≡ (s.nodes q).value)
            × (update inv.phase p ph q ≡ inv.phase q)
      agree q = elim (ℕ_discrete p q) [
        | yes same ↦ rw (sym same) (link, value, rw (==_refl p) e)
        | no ne ↦ (
          ap (λ nd. nd.next) (off q ne),
          ap (λ nd. nd.value) (off q ne),
          rw (==_of_ne p q ne) refl,
        )
      ]

  -- A node that is not on the stack is not in the list.
  pub off_list : on_stack (inv.phase p) ≡ false → has p inv.stack ≡ false
  off_list e = elim (Bool-cases (has p inv.stack)) [
    | inl on ↦
        absurd (true_ne (sym (Chain-has s.nodes inv.phase s.head p inv.stack inv.chain on) ∙ e))
    | inr off ↦ off
  ]
    where
      true_ne : true ≢ false
      true_ne = cc
