-- ===== src/LockFree/RingQueue/Threads.antt =====
-- lockfree/ring_queue.hpp: one producer and any number of consumers, interleaved one atomic
-- operation at a time. `pushed` and `taken` record the completed pushes and the successful
-- compare-exchanges of `TryPop` and `Grab`, in their order.
pub mod Invariant
pub mod Kept
pub mod Linear
mod Tests
use concurrency_library.Common.{
  ℕ, suc, ◌+◌, ◌-◌, ◌%◌, ◌<◌, ◌≤◌, ◌≡◌, ◌≢◌, List, [], ◌∷◌, ◌++◌, update, min, length, inc64, add64,
  sub64,
}
use concurrency_library.LockFree.RingQueue.{Item, RingQueue, empty, next_pos}

-- Where the producer stands in `TryPush`.
pub data Producer : Type 0 where
  ready : Producer
  load_tail : (item : Item) (head : ℕ) → Producer
  store_item : (item : Item) (tail : ℕ) → Producer  -- there is room
  add_tail : (item : Item) → Producer

-- Where a consumer stands in `TryPop` or `Grab`.
pub data Consumer : Type 0 where
  idle : Consumer
  pop_load_tail : (head : ℕ) → Consumer
  pop_read : (head : ℕ) → Consumer  -- `old_head != tail`
  pop_swap : (head : ℕ) (result : Item) → Consumer
  grab_load_tail : (head size : ℕ) → Consumer
  -- `count` slots to copy, of which those of `queue` are done; the next is at `pos`
  grab_copy : (head size count pos : ℕ) (queue : List Item) → Consumer
  grab_swap : (head size count : ℕ) (queue : List Item) → Consumer

pub record Shared : Type 0 where
  pub ring : RingQueue
  pub open ring use *
  pub pushed : List Item
  pub taken : List Item

module _ (capacity : ℕ) where
  pub data Produce (s : Shared) : Producer → Shared → Producer → Type 0 where
    push_load_head : (item : Item) → Produce s ready s (load_tail item s.head)
    push_full :
        {item : Item} {head : ℕ}
        → sub64 s.tail head ≡ capacity
        → Produce s (load_tail item head) s ready
    push_room :
        {item : Item} {head : ℕ}
        → sub64 s.tail head ≢ capacity
        → Produce s (load_tail item head) s (store_item item s.tail)
    push_store :
        {item : Item} {tail : ℕ}
        → Produce s
            (store_item item tail)
            (record s {
              ring = record s.ring { buffer = update s.buffer (tail % (capacity + 1)) item };
            })
            (add_tail item)
    push_add :
        {item : Item}
        → Produce s
            (add_tail item)
            (record s {
              ring = record s.ring { tail = inc64 s.tail };
              pushed = s.pushed ++ item ∷ [];
            })
            ready

  pub data Consume (s : Shared) : Consumer → Shared → Consumer → Type 0 where
    pop_load_head : Consume s idle s (pop_load_tail s.head)
    pop_empty : {head : ℕ} → head ≡ s.tail → Consume s (pop_load_tail head) s idle
    pop_some : {head : ℕ} → head ≢ s.tail → Consume s (pop_load_tail head) s (pop_read head)
    pop_load :
        {head : ℕ} → Consume s (pop_read head) s (pop_swap head (s.buffer (head % (capacity + 1))))
    pop_win :
        {head : ℕ} {result : Item}
        → s.head ≡ head
        → Consume s
            (pop_swap head result)
            (record s {
              ring = record s.ring { head = inc64 head };
              taken = s.taken ++ result ∷ [];
            })
            idle
    -- a failed compare-exchange loads the head, and the loop goes on
    pop_lose :
        {head : ℕ} {result : Item}
        → s.head ≢ head
        → Consume s (pop_swap head result) s (pop_load_tail s.head)
    grab_load_head : (size : ℕ) → Consume s idle s (grab_load_tail s.head size)
    grab_begin :
        {head size : ℕ}
        → Consume s
            (grab_load_tail head size)
            s
            (grab_copy head size (min (sub64 s.tail head) size) (head % (capacity + 1)) [])
    grab_item :
        {head size count pos : ℕ} {queue : List Item}
        → length queue < count
        → Consume s
            (grab_copy head size count pos queue)
            s
            (grab_copy head size count (next_pos capacity pos) (queue ++ s.buffer pos ∷ []))
    grab_copied :
        {head size count pos : ℕ} {queue : List Item}
        → count ≤ length queue
        → Consume s (grab_copy head size count pos queue) s (grab_swap head size count queue)
    grab_win :
        {head size count : ℕ} {queue : List Item}
        → s.head ≡ head
        → Consume s
            (grab_swap head size count queue)
            (record s {
              ring = record s.ring { head = add64 head count };
              taken = s.taken ++ queue;
            })
            idle
    grab_lose :
        {head size count : ℕ} {queue : List Item}
        → s.head ≢ head
        → Consume s (grab_swap head size count queue) s (grab_load_tail s.head size)

  pub record System : Type 0 where
    pub shared : Shared
    pub producer : Producer
    pub consumers : ℕ → Consumer

  abbrev pub init : System
  init = record {
    shared = record { ring = empty; pushed = []; taken = [] };
    producer = ready;
    consumers = λ _. idle;
  }

  pub data Step (s : System) : System → Type 0 where
    produce :
        {t : Shared} {p : Producer}
        → Produce s.shared s.producer t p
        → Step s (record s { shared = t; producer = p })
    consume :
        (i : ℕ) {t : Shared} {c : Consumer}
        → Consume s.shared (s.consumers i) t c
        → Step s (record s { shared = t; consumers = update s.consumers i c })

  pub data Reach : System → Type 0 where
    here : Reach init
    next : {s t : System} → Reach s → Step s t → Reach t
