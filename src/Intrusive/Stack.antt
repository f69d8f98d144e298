-- ===== src/Intrusive/Stack.antt =====
-- intrusive/structures/stack.hpp: a stack of linked nodes with its size.
pub mod Lifo
mod Tests
use concurrency_library.Common.{ℕ, ◌≡◌, List, length, Distinct, inc64, dec64, ◌==◌, if◌then◌else◌}
use concurrency_library.Intrusive.Memory.{
  Ptr, null, Memory, Cmd, pure, ◌>>=◌, ◌>>◌, load_next, store_next,
}
use concurrency_library.Intrusive.Memory.Chain.{Chain}

pub record Stack : Type 0 where
  pub head : Ptr
  pub size : ℕ

abbrev pub empty : Stack
empty = record { head = null; size = 0 }

unfoldable pub push : Stack → Ptr → Cmd Stack
push s node = do store_next node s.head; pure (record { head = node; size = inc64 s.size })

-- The node, or null, beside the stack.
unfoldable pub try_pop : Stack → Cmd (Ptr × Stack)
try_pop s =
    if s.head == null
    then pure (null, s)
    else do second ← load_next s.head; pure (s.head, record { head = second; size = dec64 s.size })

pub clear : Stack → Stack
clear s = empty

-- In memory `m` the stack holds the nodes `xs`, the newest first.
pub record Holds (m : Memory) (s : Stack) (xs : List Ptr) : Type 0 where
  pub chain : Chain m.next s.head xs
  pub distinct : Distinct xs
  pub count : s.size ≡ length xs
