-- ===== src/Intrusive/Queue.antt =====
-- intrusive/structures/queue.hpp: a queue of linked nodes with pointers to both ends and a size.
pub mod Fifo
mod Tests
use concurrency_library.Common.{
  ℕ, ◌≡◌, List, length, last, Distinct, inc64, dec64, add64, ◌==◌, if◌then◌else◌,
}
use concurrency_library.Intrusive.Memory.{
  Ptr, null, Memory, Cmd, pure, ◌>>=◌, ◌>>◌, and_then, load_next, store_next,
}
use concurrency_library.Intrusive.Memory.Chain.{Chain}

pub record Queue : Type 0 where
  pub head : Ptr
  pub tail : Ptr
  pub size : ℕ

abbrev pub empty : Queue
empty = record { head = null; tail = null; size = 0 }

-- the two arms of `if (head_ == nullptr)`
unfoldable link : Queue → Ptr → Cmd Queue
link q node =
    if q.head == null
    then pure (record q { head = node; tail = node })
    else do store_next q.tail node; pure (record q { tail = node })

unfoldable pub push : Queue → Ptr → Cmd Queue
unfolding link
push q node =
    if node == null
    then pure q
    else do store_next node null; q' ← link q node; pure (record q' { size = inc64 q'.size })

-- Both queues come back, the argument emptied.
pub push_queue : Queue → Queue → Cmd (Queue × Queue)
push_queue q other =
    if other.size == 0 then pure (q, other) else if q.size == 0 then pure (other, empty) else do
      store_next q.tail other.head
      pure (record q { tail = other.tail; size = add64 q.size other.size }, empty)

-- The node, or null, beside the queue.
unfoldable pub try_pop : Queue → Cmd (Ptr × Queue)
try_pop q =
    if q.head == null
    then pure (null, q)
    else if q.head == q.tail
    then pure (q.head, record { head = null; tail = null; size = dec64 q.size })
    else do
      second ← load_next q.head
      pure (q.head, record q { head = second; size = dec64 q.size })

pub clear : Queue → Queue
clear q = empty

-- In memory `m` the queue holds the nodes `xs`, the oldest first.
pub record Holds (m : Memory) (q : Queue) (xs : List Ptr) : Type 0 where
  pub chain : Chain m.next q.head xs
  pub distinct : Distinct xs
  pub back : q.tail ≡ last xs
  pub count : q.size ≡ length xs
