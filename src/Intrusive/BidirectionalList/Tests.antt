-- ===== src/Intrusive/BidirectionalList/Tests.antt =====
-- A list of the nodes 3, 5 and 7, and the empty list.
use concurrency_library.Common.{◌≡◌, ◌==◌, if◌then◌else◌, refl, none, [], ◌∷◌, arith}
use concurrency_library.Intrusive.Memory.{Memory, Returns}
use concurrency_library.Intrusive.BidirectionalList.{BidirectionalList, empty, unlink, Holds}
use concurrency_library.Intrusive.BidirectionalList.Middle.{unlink-append}
use concurrency_library.Intrusive.BidirectionalList.PushBack.{
  push_push_pop_pop, push_push_pop_pop-faults,
}

abbrev memory : Memory
memory = record {
  next = λ p. if p == 3 then 5 else if p == 5 then 7 else 0;
  prev = λ p. if p == 5 then 3 else if p == 7 then 5 else 0;
}

abbrev three_nodes : BidirectionalList
three_nodes = record { head = 3; tail = 7; size = 3 }

three_nodes-Holds : Holds memory three_nodes (3 ∷ 5 ∷ 7 ∷ [])
three_nodes-Holds = record {
  links = (refl, ground arith, refl, (refl, ground arith, refl, (refl, ground arith, refl, refl)));
  distinct = (refl, (refl, (refl, tt)));
  back = refl;
  count = refl;
}

unlink-append_example : Returns (λ l' g. Holds g l' (3 ∷ 7 ∷ [])) (unlink three_nodes 5 memory)
unlink-append_example =
    unlink-append memory three_nodes (3 ∷ []) 5 (7 ∷ []) three_nodes-Holds (omega arith)

faults : push_push_pop_pop empty 4 6 memory ≡ none
faults = push_push_pop_pop-faults memory empty 4 6 refl (ground arith) (ground arith) (ground arith)
