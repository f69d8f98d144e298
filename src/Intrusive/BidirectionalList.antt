-- ===== src/Intrusive/BidirectionalList.antt =====
-- intrusive/structures/list.hpp: a doubly linked list of nodes with pointers to both ends.
mod Segments
pub mod Ends
pub mod Middle
pub mod PushBack
mod Tests
use concurrency_library.Common.{
  ℕ, ◌≡◌, List, length, last, Distinct, inc64, dec64, ◌==◌, if◌then◌else◌,
}
use concurrency_library.Intrusive.Memory.{
  Ptr, null, Memory, Cmd, pure, ◌>>=◌, ◌>>◌, load_next, load_prev, store_next, store_prev,
}
use Segments.{Seg}

pub record BidirectionalList : Type 0 where
  pub head : Ptr
  pub tail : Ptr
  pub size : ℕ

abbrev pub empty : BidirectionalList
empty = record { head = null; tail = null; size = 0 }

unfoldable pub push_front : BidirectionalList → Ptr → Cmd BidirectionalList
push_front l node =
    if l.size == 0
    then (do
      store_next node null
      store_prev node null
      pure (record { head = node; tail = node; size = 1 }))
    else do
      store_next node l.head
      store_prev node null
      store_prev l.head node
      pure (record l { head = node; size = inc64 l.size })

-- The code after the test runs in both cases: there is no `return` behind `PushFront(node)`.
unfoldable pub push_back : BidirectionalList → Ptr → Cmd BidirectionalList
unfolding push_front
push_back l node = do
  l' ← (if l.size == 0 then push_front l node else pure l)
  store_next node null
  store_prev node l'.tail
  store_next l'.tail node
  pure (record l' { tail = node; size = inc64 l'.size })

unfoldable pub try_pop_front : BidirectionalList → Cmd (Ptr × BidirectionalList)
try_pop_front l =
    if l.size == 0
    then pure (null, l)
    else if dec64 l.size == 0
    then pure (l.head, record { head = null; tail = null; size = dec64 l.size })
    else do
      second ← load_next l.head
      store_prev second null
      pure (l.head, record l { head = second; size = dec64 l.size })

unfoldable pub try_pop_back : BidirectionalList → Cmd (Ptr × BidirectionalList)
try_pop_back l =
    if l.size == 0
    then pure (null, l)
    else if dec64 l.size == 0
    then pure (l.head, record { head = null; tail = null; size = dec64 l.size })
    else do
      before ← load_prev l.tail
      store_next before null
      pure (l.tail, record l { tail = before; size = dec64 l.size })

unfoldable pub unlink : BidirectionalList → Ptr → Cmd BidirectionalList
unfolding try_pop_front try_pop_back
unlink l node =
    if node == null
    then pure l
    else if node == l.head
    then (do (_, l') ← try_pop_front l; pure l')
    else if node == l.tail
    then (do (_, l') ← try_pop_back l; pure l')
    else do
      prev ← load_prev node
      next ← load_next node
      store_next prev next
      store_prev next prev
      pure (record l { size = dec64 l.size })

pub clear : BidirectionalList → BidirectionalList
clear l = empty

-- In memory `m` the list holds the nodes `xs`, front first, linked in both directions.
pub record Holds (m : Memory) (l : BidirectionalList) (xs : List Ptr) : Type 0 where
  pub links : Seg m.next m.prev null l.head xs null
  pub distinct : Distinct xs
  pub back : l.tail ≡ last xs
  pub count : l.size ≡ length xs
