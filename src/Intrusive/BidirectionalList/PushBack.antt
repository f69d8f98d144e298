-- ===== src/Intrusive/BidirectionalList/PushBack.antt =====
-- intrusive/structures/list.hpp: `PushBack` on an empty list.
use concurrency_library.Common.{◌≡◌, ◌≢◌, none, arith}
use concurrency_library.Intrusive.Memory.{
  Ptr, null, Memory, Cmd, pure, ◌>>=◌, Returns, load_next, store_next, store_prev,
}
use concurrency_library.Intrusive.BidirectionalList.{
  BidirectionalList, push_front, push_back, try_pop_front,
}

-- Pushing one node at the back of an empty list and popping at the front twice.
pub push_pop_pop : BidirectionalList → Ptr → Cmd (Ptr × Ptr × BidirectionalList)
push_pop_pop l node = do
  l ← push_back l node
  (first, l) ← try_pop_front l
  (second, l) ← try_pop_front l
  pure (first, second, l)

-- Pushing two nodes at the back of an empty list and popping at the front twice.
pub push_push_pop_pop : BidirectionalList → (one two : Ptr) → Cmd (Ptr × BidirectionalList)
push_push_pop_pop l one two = do
  l ← push_back l one
  l ← push_back l two
  (_, l) ← try_pop_front l
  try_pop_front l

-- A node other than null that is pushed at the back of an empty list counts twice: two pops at the
-- front give it both times, and only then is the size 0.
pub push_pop_pop-duplicates :
    (m : Memory) (l : BidirectionalList) (node : Ptr)
    → l.size ≡ 0
    → node ≢ null
    → Returns
        (λ (first, second, l') g. (first ≡ node) × (second ≡ node) × (l'.size ≡ 0))
        (push_pop_pop l node m)
unfolding push_pop_pop push_back push_front try_pop_front load_next store_next store_prev
push_pop_pop-duplicates m l node e ne = ground arith

-- Two different nodes, neither of them null, are pushed at the back of an empty list: the second of
-- two pops at the front goes through the null pointer.
pub push_push_pop_pop-faults :
    (m : Memory) (l : BidirectionalList) (one two : Ptr)
    → l.size ≡ 0
    → one ≢ null
    → two ≢ null
    → one ≢ two
    → push_push_pop_pop l one two m ≡ none
unfolding push_push_pop_pop push_back push_front try_pop_front load_next store_next store_prev
push_push_pop_pop-faults m l one two e n1 n2 ne = ground arith
