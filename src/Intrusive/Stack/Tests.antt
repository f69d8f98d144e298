-- ===== src/Intrusive/Stack/Tests.antt =====
-- A stack of the nodes 3 and 5.
use concurrency_library.Common.{◌≡◌, ◌==◌, if◌then◌else◌, refl, [], ◌∷◌, arith}
use concurrency_library.Intrusive.Memory.{Memory, Returns, load_next}
use concurrency_library.Intrusive.Stack.{Stack, try_pop, Holds}

abbrev memory : Memory
memory = record { next = λ p. if p == 3 then 5 else 0; prev = λ p. 0 }

abbrev two_nodes : Stack
two_nodes = record { head = 3; size = 2 }

two_nodes-Holds : Holds memory two_nodes (3 ∷ 5 ∷ [])
two_nodes-Holds = record {
  chain = (refl, ground arith, (refl, ground arith, refl));
  distinct = (refl, (refl, tt));
  count = refl;
}

pops_top : Returns (λ (out, s) g. (out ≡ 3) × (s.size ≡ 1)) (try_pop two_nodes memory)
unfolding try_pop load_next
pops_top = ground arith
