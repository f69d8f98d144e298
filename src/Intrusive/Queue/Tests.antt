-- ===== src/Intrusive/Queue/Tests.antt =====
-- Queues in a memory where node 3 is linked to node 5, and node 7 stands alone.
use concurrency_library.Common.{◌==◌, if◌then◌else◌, refl, [], ◌∷◌, arith}
use concurrency_library.Intrusive.Memory.{Memory, Returns}
use concurrency_library.Intrusive.Queue.{Queue, push_queue, Holds}
use concurrency_library.Intrusive.Queue.Fifo.{SameOutside, push_queue-append}

abbrev memory : Memory
memory = record { next = λ p. if p == 3 then 5 else 0; prev = λ p. 0 }

abbrev two_nodes : Queue
two_nodes = record { head = 3; tail = 5; size = 2 }

abbrev one_node : Queue
one_node = record { head = 7; tail = 7; size = 1 }

two_nodes-Holds : Holds memory two_nodes (3 ∷ 5 ∷ [])
two_nodes-Holds = record {
  chain = (refl, ground arith, (refl, ground arith, refl));
  distinct = (refl, (refl, tt));
  back = refl;
  count = refl;
}

one_node-Holds : Holds memory one_node (7 ∷ [])
one_node-Holds = record {
  chain = (refl, ground arith, refl);
  distinct = (refl, tt);
  back = refl;
  count = refl;
}

merged :
    Returns
      (λ (q', rest) g.
        Holds g q' (3 ∷ 5 ∷ 7 ∷ []) × Holds g rest [] × SameOutside (3 ∷ 5 ∷ []) memory g)
      (push_queue two_nodes one_node memory)
merged =
    push_queue-append memory two_nodes one_node (3 ∷ 5 ∷ []) (7 ∷ []) two_nodes-Holds one_node-Holds
      (refl, (refl, tt)) (omega arith)
