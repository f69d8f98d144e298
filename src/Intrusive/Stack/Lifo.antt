-- ===== src/Intrusive/Stack/Lifo.antt =====
-- intrusive/structures/stack.hpp refines the stack of the nodes it holds.
use concurrency_library.Common.{
  suc, ◌<◌, ◌≡◌, ◌≢◌, refl, false, List, [], ◌∷◌, length, has, update, ==_of_ne, ==_of_eq, ==_refl,
  arith, word_mod,
}
use concurrency_library.Intrusive.Memory.{Ptr, null, Memory, Returns, load_next_lem, store_next_lem}
use concurrency_library.Intrusive.Memory.Chain.{Chain-update}
use concurrency_library.Intrusive.Stack.{Stack, push, try_pop, Holds}

-- Pushing a node that is not null and not in the stack, with fewer than 2^64 - 1 nodes in it, makes
-- no fault, puts the node on top, and writes only the `next` link of that node.
pub push-cons :
    (m : Memory) (s : Stack) (xs : List Ptr) (node : Ptr)
    → Holds m s xs
    → node ≢ null
    → has node xs ≡ false
    → suc (length xs) < word_mod
    → Returns
        (λ s' g. Holds g s' (node ∷ xs) × (g ≡ record m { next = update m.next node s.head }))
        (push s node m)
unfolding push
push-cons m s xs node h ne out small = rw (store_next_lem node ne m s.head) (
  record {
    chain = (refl, ne, rw (==_refl node) (Chain-update m.next s.head xs node s.head h.chain out));
    distinct = (out, h.distinct);
    count = omega (arith, h.count);
  },
  refl,
)

-- What `TryPop` gives on a stack of the nodes `xs`: null and no change on the empty stack, else the
-- top node and a stack of the others. It writes no link.
abbrev pub PoppedTop : Memory → Stack → List Ptr → Ptr × Stack → Memory → Type 0
PoppedTop m s [] (out, s') g = (out ≡ null) × (s' ≡ s) × (g ≡ m)
PoppedTop m s (x ∷ xs) (out, s') g = (out ≡ x) × Holds m s' xs × (g ≡ m)

-- Popping from a stack of fewer than 2^64 nodes makes no fault and writes no link: the empty stack
-- gives null and stays, any other gives its top node and is then a stack of the others.
pub try_pop-PoppedTop :
    (m : Memory) (s : Stack) (xs : List Ptr)
    → Holds m s xs
    → length xs < word_mod
    → Returns (PoppedTop m s xs) (try_pop s m)
unfolding try_pop
try_pop-PoppedTop m s [] h small = rw (==_of_eq s.head null h.chain) (refl, refl, refl)
try_pop-PoppedTop m s (x ∷ xs) h small =
    rw
      (
        ==_of_ne s.head null (ground (arith, h.chain)),
        load_next_lem s.head (ground (arith, h.chain)) m,
      )
      (
        h.chain.0,
        record {
          chain = rw (h.chain.0) (h.chain.2);
          distinct = h.distinct.1;
          count = omega (arith, h.count);
        },
        refl,
      )
