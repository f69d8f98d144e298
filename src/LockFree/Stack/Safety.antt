-- ===== src/LockFree/Stack/Safety.antt =====
-- lockfree/stack.hpp: what holds in every interleaving of the threads.
use concurrency_library.Common.{
  ℕ, ◌<◌, ◌≡◌, ◌≢◌, refl, ap, subst, ◌∙◌, true, false, some, List, [], ◌∷◌, arith, ℕ_discrete,
}
use concurrency_library.LockFree.CountedPtr.{get_pointer}
use concurrency_library.LockFree.Stack.{Node, counting, System, Reach, replay}
use concurrency_library.LockFree.Stack.Roles.{
  Role, maker, viewer, popper, deleter, bystander, role, target, is_role,
}
use concurrency_library.LockFree.Stack.Invariant.{
  Phase, free, fresh, stacked, removed, abandoned, doomed, in_use, Account, Fit, Chain, values,
}
use concurrency_library.LockFree.Stack.Accounts.{deleter-doomed}
use concurrency_library.LockFree.Stack.Turn.{crew_before, counts, counts_two}
use concurrency_library.LockFree.Stack.Kept.{Reach-Inv}

-- The word `w` leads to the nodes `ps`, one after the other.
abbrev pub Linked : (ℕ → Node) → ℕ → List ℕ → Type 0
Linked nodes w [] = get_pointer w ≡ 0
Linked nodes w (p ∷ ps) = (get_pointer w ≡ p) × (p ≢ 0) × Linked nodes (nodes p).next ps

pub Chain-Linked :
    (nodes : ℕ → Node) (phase : ℕ → Phase) (w : ℕ) (ps : List ℕ)
    → Chain nodes phase w ps
    → Linked nodes w ps
Chain-Linked nodes phase w [] h = h
Chain-Linked nodes phase w (p ∷ ps) h = (h.0, h.1, Chain-Linked nodes phase (nodes p).next ps h.3)

-- In every interleaving of `n` threads in which no counter of a node has passed its largest value,
-- the pushes, pops and finds of an empty stack, each at the step at which it takes effect, are a
-- run of a sequential stack that ends with the values of the nodes to which `head_` leads, the top
-- first.
pub linearizable :
    {n : ℕ} {s : System}
    → Reach n s
    → s.stack.wrapped ≡ false
    → (ps : List ℕ) × Linked s.stack.nodes s.stack.head ps
      × (replay s.stack.events ≡ some (values s.stack.nodes ps))
linearizable {s} r fine =
    let h = Reach-Inv r fine in
    (h.stack, Chain-Linked s.stack.nodes h.phase s.stack.head h.stack h.chain, h.replayed)

-- In every such interleaving the value that `TryPop` has moved out of its node is the one that was
-- at the top when its exchange took the node off.
pub returns_popped :
    {n : ℕ} {s : System} (i old owed result : ℕ)
    → Reach n s
    → s.stack.wrapped ≡ false
    → i < n
    → s.pc i ≡ counting old owed result
    → result ≡ owed
returns_popped {s} i old owed result r fine lt at =
    let h = Reach-Inv r fine in
    let known : Fit (counting old owed result) (h.phase (target (s.pc i)))
        (s.stack.nodes (target (s.pc i))) =
      subst (λ k. Fit k (h.phase (target (s.pc i))) (s.stack.nodes (target (s.pc i)))) at
        (h.fits i lt) in
    known.1

-- Memory that a thread is at is in use.
in_use_of :
    (a count : ℕ) (crew : Role → ℕ) (ph : Phase) (r : Role)
    → Account a ph count crew
    → r ≢ bystander
    → 0 < crew r
    → in_use ph ≡ true
in_use_of a count crew fresh r h nb lt = refl
in_use_of a count crew (stacked c) r h nb lt = refl
in_use_of a count crew (removed c) r h nb lt = refl
in_use_of a count crew abandoned r h nb lt = refl
in_use_of a count crew doomed r h nb lt = refl
in_use_of a count crew free maker h nb lt = absurd (omega (arith, h.makes, lt))
in_use_of a count crew free viewer h nb lt = absurd (omega (arith, h.views, lt))
in_use_of a count crew free popper h nb lt = absurd (omega (arith, h.pops, lt))
in_use_of a count crew free deleter h nb lt = absurd (omega (arith, h.deletes, lt))
in_use_of a count crew free bystander h nb lt = absurd (nb refl)

is_role-same : (r : Role) → r ≢ bystander → is_role r r ≡ 1
is_role-same maker nb = refl
is_role-same viewer nb = refl
is_role-same popper nb = refl
is_role-same deleter nb = refl
is_role-same bystander nb = absurd (nb refl)

-- In every such interleaving the memory of a node that a thread fills, views, takes a value from,
-- counts or deletes is in use.
pub no_use_after_free :
    {n : ℕ} {s : System} (i : ℕ)
    → Reach n s
    → s.stack.wrapped ≡ false
    → i < n
    → role (s.pc i) ≢ bystander
    → s.stack.allocated (target (s.pc i)) ≡ true
no_use_after_free {s} i r fine lt busy =
    let h = Reach-Inv r fine in
    let p = target (s.pc i) in
    let k = role (s.pc i) in
    h.use_of p
    ∙ in_use_of p (s.stack.nodes p).internal_count (crew_before h i lt p) (h.phase p) k
        (h.account p) busy (omega (arith, counts h i lt p i lt refl k, is_role-same k busy))

-- At a doomed node there is its deleter and nobody else.
crew-doomed :
    (a count : ℕ) (crew : Role → ℕ) (r : Role)
    → Account a doomed count crew
    → r ≢ bystander
    → 0 < crew r
    → r ≡ deleter
crew-doomed a count crew maker h nb lt = absurd (omega (arith, h.makes, lt))
crew-doomed a count crew viewer h nb lt = absurd (omega (arith, h.views, lt))
crew-doomed a count crew popper h nb lt = absurd (omega (arith, h.pops, lt))
crew-doomed a count crew deleter h nb lt = refl
crew-doomed a count crew bystander h nb lt = absurd (nb refl)

-- In every such interleaving a thread that is about to delete a node is the only one at that node:
-- no other fills, views, takes, counts or deletes it.
pub deletes_alone :
    {n : ℕ} {s : System} (i j : ℕ)
    → Reach n s
    → s.stack.wrapped ≡ false
    → i < n
    → j < n
    → role (s.pc i) ≡ deleter
    → role (s.pc j) ≢ bystander
    → target (s.pc j) ≡ target (s.pc i)
    → i ≡ j
deletes_alone {s} i j r fine lt hj del busy same =
    let h = Reach-Inv r fine in
    let p = target (s.pc i) in
    let k = role (s.pc j) in
    let count = (s.stack.nodes p).internal_count in
    let e =
      deleter-doomed p count (crew_before h i lt p) (h.phase p) (h.account p)
        (omega (arith, counts h i lt p i lt refl deleter, ap (is_role deleter) del)) in
    let acc : Account p doomed count (crew_before h i lt p) =
      subst (λ ph. Account p ph count (crew_before h i lt p)) e (h.account p) in
    let too =
      crew-doomed p count (crew_before h i lt p) k acc busy
        (omega (arith, counts h i lt p j hj same k, is_role-same k busy)) in
    elim (ℕ_discrete i j) [
      | yes eq ↦ eq
      | no ne ↦ absurd (
          omega (
            arith,
            acc.deletes,
            counts_two h i lt p j hj ne refl same deleter,
            ap (is_role deleter) del,
            ap (is_role deleter) too,
          ))
    ]
