-- ===== src/LockFree/RingQueue.antt =====
-- lockfree/ring_queue.hpp: a bounded ring buffer with one producer and many consumers. Its
-- operations as one thread runs them; `RingQueue/Threads` interleaves them.
pub mod Contents
pub mod Threads
mod Tests
use concurrency_library.Common.{
  ℕ, zero, suc, ◌+◌, ◌-◌, ◌%◌, ◌^◌, ◌<◌, ◌≤◌, Bool, true, false, List, [], ◌∷◌, update, min, ◌==◌,
  if◌then◌else◌, inc64, add64, sub64, word_mod,
}

-- An item, by its address.
abbrev pub Item : Type 0
Item = ℕ

abbrev pub null : Item
null = 0

pub record RingQueue : Type 0 where
  pub buffer : ℕ → Item
  pub head : ℕ
  pub tail : ℕ

abbrev pub empty : RingQueue
empty = record { buffer = λ _. null; head = 0; tail = 0 }

-- `head_pos = ((head_pos + 1) == (Capacity + 1) ? 0 : head_pos + 1)`
abbrev pub next_pos : ℕ → ℕ → ℕ
next_pos capacity pos = if pos + 1 == capacity + 1 then 0 else pos + 1

module _ (capacity : ℕ) where
  unfoldable pub try_push : RingQueue → Item → Bool × RingQueue
  try_push q item = if sub64 q.tail q.head == capacity then (false, q) else (
    true,
    record q { buffer = update q.buffer (q.tail % (capacity + 1)) item; tail = inc64 q.tail },
  )

  unfoldable pub try_pop : RingQueue → Item × RingQueue
  try_pop q =
      if q.head == q.tail
      then (null, q)
      else (q.buffer (q.head % (capacity + 1)), record q { head = inc64 q.head })

  -- The inner loop of `Grab`: `count` items from slot `pos` on.
  copy : (ℕ → Item) → ℕ → ℕ → List Item
  copy buffer pos zero = []
  copy buffer pos (suc count) = buffer pos ∷ copy buffer (next_pos capacity pos) count

  -- The items that end up in `queue`, beside the ring.
  unfoldable pub grab : RingQueue → ℕ → List Item × RingQueue
  unfolding copy
  grab q size =
      let count = min (sub64 q.tail q.head) size in
      (copy q.buffer (q.head % (capacity + 1)) count, record q { head = add64 q.head count })

  -- `count` items from index `from` on.
  abbrev pub window : (ℕ → Item) → ℕ → ℕ → List Item
  window buffer from zero = []
  window buffer from (suc count) = buffer (from % (capacity + 1)) ∷ window buffer (from + 1) count

-- The counts of pushes and pops have not wrapped, and at most `capacity` items are in the ring.
pub record IsValid (capacity : ℕ) (q : RingQueue) : Type 0 where
  pub order : q.head ≤ q.tail
  pub room : q.tail ≤ q.head + capacity
  pub small : q.tail < word_mod

-- The items in the ring, oldest first.
abbrev pub contents : ℕ → RingQueue → List Item
contents capacity q = window capacity q.buffer q.head (q.tail - q.head)
