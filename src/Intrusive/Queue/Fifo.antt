-- ===== src/Intrusive/Queue/Fifo.antt =====
-- intrusive/structures/queue.hpp refines the queue of the nodes it holds.
use concurrency_library.Common.{
  suc, ◌+◌, ◌<◌, ◌≡◌, ◌≢◌, refl, sym, false, List, [], ◌∷◌, ◌++◌, length, last, has, Disjoint,
  Disjoint-one, append-nil, Disjoint-ne, Distinct-append, last-append, length-append, has-last,
  last-ne, update, ==_of_ne, ==_of_eq, ◌∙◌, arith, word_mod,
}
use concurrency_library.Intrusive.Memory.{Ptr, null, Memory, Returns, load_next_lem, store_next_lem}
use concurrency_library.Intrusive.Memory.Chain.{Chain-update, Chain-append, Chain-ne_null}
use concurrency_library.Intrusive.Queue.{Queue, link, push, push_queue, try_pop, Holds}

-- `g` differs from `m` at most in the `next` fields of the nodes `xs`.
abbrev pub SameOutside : List Ptr → Memory → Memory → Type 0
SameOutside xs m g = ((a : Ptr) → has a xs ≡ false → g.next a ≡ m.next a) × (g.prev ≡ m.prev)

abbrev pub Pushed : Memory → List Ptr → Ptr → Queue → Memory → Type 0
Pushed m xs node q' g = Holds g q' (xs ++ node ∷ []) × SameOutside (node ∷ xs) m g

-- Pushing a node that is not null and not in the queue, with fewer than 2^64 - 1 nodes in it, makes
-- no fault, appends the node at the back, and writes only the links of that node and of the nodes
-- in the queue.
pub push-append :
    (m : Memory) (q : Queue) (xs : List Ptr) (node : Ptr)
    → Holds m q xs
    → node ≢ null
    → has node xs ≡ false
    → suc (length xs) < word_mod
    → Returns (Pushed m xs node) (push q node m)
unfolding push link
push-append m q [] node h ne out small =
    rw (==_of_ne node null ne, store_next_lem node ne m null, h.chain)
      (
        record {
          chain = (refl, ne, ground arith);
          distinct = (refl, tt);
          back = refl;
          count = omega (arith, h.count);
        },
        (λ a o. ground arith, refl),
      )
push-append m q (x ∷ xs) node h ne out small =
    rw
      (
        ==_of_ne node null ne,
        store_next_lem node ne m null,
        ==_of_ne q.head null (ground (arith, h.chain)),
        h.back,
        store_next_lem (last (x ∷ xs))
            (Chain-ne_null m.next q.head (last (x ∷ xs)) (x ∷ xs) h.chain (has-last x xs)),
      )
      (
        record {
          chain =
              Chain-append (update m.next node null) q.head x xs (node ∷ []) node
                (Chain-update m.next q.head (x ∷ xs) node null h.chain out) h.distinct
                (refl, ne, ground (arith, last-ne node x xs));
          distinct =
              Distinct-append (x ∷ xs) (node ∷ []) h.distinct (refl, tt)
                (Disjoint-one node (x ∷ xs) out);
          back = sym (last-append (x ∷ xs) node []);
          count = omega (arith, h.count, length-append xs (node ∷ []));
        },
        (λ a o. ground (arith, last-ne a x xs), refl),
      )

-- What `TryPop` gives on a queue of the nodes `xs`: null and no change on the empty queue, else the
-- oldest node and a queue of the others. It writes no link.
abbrev pub Popped : Memory → Queue → List Ptr → Ptr × Queue → Memory → Type 0
Popped m q [] (out, q') g = (out ≡ null) × (q' ≡ q) × (g ≡ m)
Popped m q (x ∷ xs) (out, q') g = (out ≡ x) × Holds m q' xs × (g ≡ m)

-- Popping from a queue of fewer than 2^64 nodes makes no fault and writes no link: the empty queue
-- gives null and stays, any other gives the oldest node and is then a queue of the others.
pub try_pop-Popped :
    (m : Memory) (q : Queue) (xs : List Ptr)
    → Holds m q xs
    → length xs < word_mod
    → Returns (Popped m q xs) (try_pop q m)
unfolding try_pop
try_pop-Popped m q [] h small = rw (==_of_eq q.head null h.chain) (refl, refl, refl)
try_pop-Popped m q (x ∷ []) h small =
    rw
      (
        ==_of_ne q.head null (ground (arith, h.chain)),
        ==_of_eq q.head q.tail (ground (arith, h.chain, h.back)),
      )
      (
        h.chain.0,
        record { chain = refl; distinct = tt; back = refl; count = omega (arith, h.count) },
        refl,
      )
try_pop-Popped m q (x ∷ y ∷ xs) h small =
    rw
      (
        ==_of_ne q.head null (ground (arith, h.chain)),
        ==_of_ne q.head q.tail (ground (arith, h.chain, h.back, last-ne x y xs)),
        load_next_lem q.head (ground (arith, h.chain)) m,
      )
      (
        h.chain.0,
        record {
          chain = rw (h.chain.0) (h.chain.2);
          distinct = h.distinct.1;
          back = h.back;
          count = omega (arith, h.count);
        },
        refl,
      )

-- Merging two queues without a common node, of fewer than 2^64 nodes together, makes no fault: the
-- first then holds its nodes and behind them those of the second, the second is empty, and only
-- links of the nodes of the first are written.
pub push_queue-append :
    (m : Memory) (q other : Queue) (xs ys : List Ptr)
    → Holds m q xs
    → Holds m other ys
    → Disjoint xs ys
    → length xs + length ys < word_mod
    → Returns
        (λ (q', rest) g. Holds g q' (xs ++ ys) × Holds g rest [] × SameOutside xs m g)
        (push_queue q other m)
unfolding push_queue
push_queue-append m q other xs [] h k apart small =
    rw (==_of_eq other.size 0 k.count, append-nil) (h, k, ((λ a o. refl), refl))
push_queue-append m q other [] (y ∷ ys) h k apart small =
    rw (==_of_ne other.size 0 (omega (arith, k.count)), ==_of_eq q.size 0 h.count)
      (k, record { chain = refl; distinct = tt; back = refl; count = refl }, ((λ a o. refl), refl))
push_queue-append m q other (x ∷ xs) (y ∷ ys) h k apart small =
    rw
      (
        ==_of_ne other.size 0 (omega (arith, k.count)),
        ==_of_ne q.size 0 (omega (arith, h.count)),
        h.back,
        store_next_lem (last (x ∷ xs))
            (Chain-ne_null m.next q.head (last (x ∷ xs)) (x ∷ xs) h.chain (has-last x xs)),
      )
      (
        record {
          chain = Chain-append m.next q.head x xs (y ∷ ys) other.head h.chain h.distinct (
              Chain-update m.next other.head (y ∷ ys) (last (x ∷ xs)) other.head k.chain
                (Disjoint-ne (last (x ∷ xs)) (x ∷ xs) (y ∷ ys) apart (has-last x xs)));
          distinct = Distinct-append (x ∷ xs) (y ∷ ys) h.distinct k.distinct apart;
          back = k.back ∙ sym (last-append (x ∷ xs) y ys);
          count = omega (arith, h.count, k.count, length-append xs (y ∷ ys));
        },
        record { chain = refl; distinct = tt; back = refl; count = refl },
        ((λ a o. ground (arith, last-ne a x xs)), refl),
      )
