-- ===== src/LockFree/RingQueue/Threads/Invariant.antt =====
-- lockfree/ring_queue.hpp: the invariant of the interleaved ring.
use concurrency_library.Common.{
  ℕ, ◌+◌, ◌%◌, ◌<◌, ◌≤◌, ◌≡◌, sym, ◌∙◌, List, ◌++◌, length, take, drop, get_or, get_or-append_left,
  take-drop-append, arith,
}
use concurrency_library.LockFree.RingQueue.{Item}
use concurrency_library.LockFree.RingQueue.Threads.{
  Producer, ready, load_tail, store_item, add_tail, Consumer, idle, pop_load_tail, pop_read,
  pop_swap, grab_load_tail, grab_copy, grab_swap, Shared,
}

module _ (capacity : ℕ) where
  -- What the locals of the producer say about the ring.
  abbrev pub ProducerFact : (head tail : ℕ) → (ℕ → Item) → Producer → Type 0
  ProducerFact head tail buffer ready = Unit
  ProducerFact head tail buffer (load_tail item h) = (h ≤ head) × (tail ≤ h + capacity)
  ProducerFact head tail buffer (store_item item t) = (t ≡ tail) × (tail < head + capacity)
  ProducerFact head tail buffer (add_tail item) =
      (buffer (tail % (capacity + 1)) ≡ item) × (tail < head + capacity)

  -- What the locals of a consumer say: they are true of the ring if the head has not moved since.
  abbrev pub ConsumerFact : (head tail : ℕ) → List Item → Consumer → Type 0
  ConsumerFact head tail pushed idle = Unit
  ConsumerFact head tail pushed (pop_load_tail h) = h ≤ head
  ConsumerFact head tail pushed (pop_read h) = (h ≤ head) × (h ≡ head → h < tail)
  ConsumerFact head tail pushed (pop_swap h v) =
      (h ≤ head) × (h ≡ head → h < tail) × (h ≡ head → v ≡ get_or pushed h 0)
  ConsumerFact head tail pushed (grab_load_tail h size) = h ≤ head
  ConsumerFact head tail pushed (grab_copy h size count pos queue) =
      (h ≤ head)
      × (length queue ≤ count)
      × (h ≡ head → h + count ≤ tail)
      × (pos ≡ (h + length queue) % (capacity + 1))
      × (h ≡ head → queue ≡ take (length queue) (drop h pushed))
  ConsumerFact head tail pushed (grab_swap h size count queue) =
      (h ≤ head)
      × (length queue ≡ count)
      × (h ≡ head → h + count ≤ tail)
      × (h ≡ head → queue ≡ take (length queue) (drop h pushed))

  pub record Core (s : Shared) : Type 0 where
    pub order : s.head ≤ s.tail
    pub room : s.tail ≤ s.head + capacity
    pub count : s.tail ≡ length s.pushed
    pub prefix : s.taken ≡ take s.head s.pushed
    pub live :
        (k : ℕ) → s.head ≤ k → k < s.tail → s.buffer (k % (capacity + 1)) ≡ get_or s.pushed k 0

  pub record Inv (s : Shared) (p : Producer) (c : ℕ → Consumer) : Type 0 where
    pub core : Core s
    pub producer_fact : ProducerFact s.head s.tail s.buffer p
    pub consumer_fact : (i : ℕ) → ConsumerFact s.head s.tail s.pushed (c i)

  -- The facts of a consumer outlive pushes and pops of others.
  pub ConsumerFact-mono :
      (head tail head' tail' : ℕ) (pushed ys : List Item) (c : Consumer)
      → head ≤ head'
      → head ≤ tail
      → tail ≤ tail'
      → tail ≡ length pushed
      → ConsumerFact head tail pushed c
      → ConsumerFact head' tail' (pushed ++ ys) c
  ConsumerFact-mono head tail head' tail' pushed ys idle hh ht tt' e f = tt
  ConsumerFact-mono head tail head' tail' pushed ys (pop_load_tail h) hh ht tt' e f = omega arith
  ConsumerFact-mono head tail head' tail' pushed ys (pop_read h) hh ht tt' e f = omega arith
  ConsumerFact-mono head tail head' tail' pushed ys (pop_swap h v) hh ht tt' e f = (
    omega arith,
    omega arith,
    λ q. f.2 (omega arith) ∙ sym (get_or-append_left pushed ys h 0 (omega arith)),
  )
  ConsumerFact-mono head tail head' tail' pushed ys (grab_load_tail h size) hh ht tt' e f =
      omega arith
  ConsumerFact-mono head tail head' tail' pushed ys (grab_copy h size count pos queue) hh ht tt' e
        f =
      (
        omega arith,
        f.1,
        omega arith,
        f.3,
        λ q. f.4 (omega arith) ∙ sym (take-drop-append (length queue) h pushed ys (omega arith)),
      )
  ConsumerFact-mono head tail head' tail' pushed ys (grab_swap h size count queue) hh ht tt' e f = (
    omega arith,
    f.1,
    omega arith,
    λ q. f.3 (omega arith) ∙ sym (take-drop-append (length queue) h pushed ys (omega arith)),
  )

  pub ProducerFact-mono :
      (head head' tail : ℕ) (buffer : ℕ → Item) (p : Producer)
      → head ≤ head'
      → ProducerFact head tail buffer p
      → ProducerFact head' tail buffer p
  ProducerFact-mono head head' tail buffer ready hh f = tt
  ProducerFact-mono head head' tail buffer (load_tail item h) hh f = omega arith
  ProducerFact-mono head head' tail buffer (store_item item t) hh f = omega arith
  ProducerFact-mono head head' tail buffer (add_tail item) hh f = (f.0, omega arith)
