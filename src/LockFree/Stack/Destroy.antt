-- ===== src/LockFree/Stack/Destroy.antt =====
-- lockfree/stack.hpp: the destructor, which no other thread disturbs.
use concurrency_library.Common.{
  ℕ, zero, suc, ◌≡◌, refl, ap, ◌∙◌, fun_ext, Bool, true, false, Option, none, some, List, [], ◌∷◌,
  length, has, Distinct, update, ◌==◌, if◌then◌else◌, ==_refl, ==_of_eq, ==_of_ne, arith,
}
use concurrency_library.LockFree.CountedPtr.{get_pointer}
use concurrency_library.LockFree.Stack.{Node, System, Reach}
use concurrency_library.LockFree.Stack.Invariant.{
  Phase, free, fresh, stacked, removed, abandoned, doomed, in_use, on_stack, Chain-has,
}
use concurrency_library.LockFree.Stack.Kept.{Reach-Inv}
use concurrency_library.LockFree.Stack.Safety.{Linked, Chain-Linked}

-- The loop of `~Stack` from the word `head` on: what is then in use. It reads and deletes only
-- memory that is in use, or it is `none`, as when the fuel ends.
unfoldable pub destroy : ℕ → (ℕ → Node) → ℕ → (ℕ → Bool) → Option (ℕ → Bool)
destroy zero nodes head allocated = if get_pointer head == 0 then some allocated else none
destroy (suc fuel) nodes head allocated =
    let rest =
      destroy fuel nodes (nodes (get_pointer head)).next
        (update allocated (get_pointer head) false) in
    if get_pointer head == 0
    then some allocated
    else if allocated (get_pointer head)
    then rest
    else none

-- None of `ps` is in use.
abbrev pub without : List ℕ → (ℕ → Bool) → ℕ → Bool
without ps allocated q = if has q ps then false else allocated q

destroy-Linked :
    (nodes : ℕ → Node) (ps : List ℕ) (head : ℕ) (allocated : ℕ → Bool)
    → Linked nodes head ps
    → Distinct ps
    → ((q : ℕ) → has q ps ≡ true → allocated q ≡ true)
    → destroy (length ps) nodes head allocated ≡ some (without ps allocated)
unfolding destroy
destroy-Linked nodes [] head allocated h d used = rw (==_of_eq (get_pointer head) 0 h) refl
destroy-Linked nodes (p ∷ ps) head allocated h d used =
    rw
      (
        h.0,
        ==_of_ne p 0 h.1,
        used p (rw (==_refl p) refl),
        destroy-Linked nodes ps (nodes p).next (update allocated p false) h.2 d.1
            (λ q on. still q on),
      )
      (ap some (fun_ext same))
  where
    still : (q : ℕ) → has q ps ≡ true → update allocated p false q ≡ true
    still q on = ground (arith, on, d.0, used q)

    same : (q : ℕ) → without ps (update allocated p false) q ≡ without (p ∷ ps) allocated q
    same q = ground arith

stacked-in_use : (ph : Phase) → on_stack ph ≡ true → in_use ph ≡ true
stacked-in_use free e = e
stacked-in_use fresh e = refl
stacked-in_use (stacked c) e = refl
stacked-in_use (removed c) e = refl
stacked-in_use abandoned e = refl
stacked-in_use doomed e = refl

-- In every interleaving in which no counter of a node has passed its largest value, the destructor
-- on the stack that is left reads and deletes only memory that is in use, ends after as many rounds
-- as there are nodes to which `head_` leads, and frees those nodes and no other memory.
pub destroy-frees :
    {n : ℕ} {s : System}
    → Reach n s
    → s.stack.wrapped ≡ false
    → (ps : List ℕ) × Linked s.stack.nodes s.stack.head ps
      × (destroy (length ps) s.stack.nodes s.stack.head s.stack.allocated
          ≡ some (without ps s.stack.allocated))
destroy-frees {s} r fine =
    let h = Reach-Inv r fine in
    let links = Chain-Linked s.stack.nodes h.phase s.stack.head h.stack h.chain in
    (
      h.stack,
      links,
      destroy-Linked s.stack.nodes h.stack s.stack.head s.stack.allocated links h.distinct (λ q on.
          h.use_of q
          ∙ stacked-in_use (h.phase q)
              (Chain-has s.stack.nodes h.phase s.stack.head q h.stack h.chain on)),
    )
