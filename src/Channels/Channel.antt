-- ===== src/Channels/Channel.antt =====
-- channels/channel.hpp and the awaiters of fibers/awaiters.hpp that it uses: a bounded channel. The
-- whole of an operation runs under the spinlock, and a fiber that suspends releases it when it is
-- suspended, so an operation is one step. Consumers and producers that wait are awaiters, by their
-- addresses, in the intrusive list and the intrusive queue.
pub mod Ring
pub mod Fifo
pub mod Taking
pub mod Consumers
mod Tests
use concurrency_library.Common.{
  ℕ, ◌%◌, ◌<◌, ◌≡◌, Bool, true, false, Option, none, some, List, [], ◌∷◌, ◌++◌, update, ◌==◌, ltb,
  if◌then◌else◌, inc64, sub64,
}
use concurrency_library.Intrusive.Memory.{Ptr, null, Memory, Cmd, pure, ◌>>=◌}
use concurrency_library.Intrusive.Queue
use concurrency_library.Intrusive.Queue.{Queue, push, try_pop}
use concurrency_library.Intrusive.BidirectionalList
use concurrency_library.Intrusive.BidirectionalList.{BidirectionalList, push_back, try_pop_front}

pub record Channel : Type 0 where
  pub capacity : ℕ
  pub buffer : ℕ → ℕ
  pub head : ℕ
  pub tail : ℕ
  pub consumers_queue : BidirectionalList
  pub producers_queue : Queue
  pub offered : Ptr → ℕ  -- the field `result_` of a producer's awaiter
  pub given : Ptr → Option ℕ  -- what the field `result_` of a consumer's awaiter refers to
  pub scheduled : List Ptr  -- the awaiters whose fiber was scheduled, the oldest first

unfoldable pub make : ℕ → Channel
make capacity = record {
  capacity = capacity;
  buffer = λ _. 0;
  head = 0;
  tail = 0;
  consumers_queue = BidirectionalList.empty;
  producers_queue = Queue.empty;
  offered = λ _. 0;
  given = λ _. none;
  scheduled = [];
}

-- `buffer_[(tail_++) % kCapacity] = value`
abbrev pub put : Channel → ℕ → Channel
put c v = record c { buffer = update c.buffer (c.tail % c.capacity) v; tail = inc64 c.tail }

-- `ChannelConsumerAwaiter::Resume`, a fault on the null pointer.
unfoldable pub resume_consumer : Channel → Ptr → ℕ → Cmd Channel
resume_consumer c awaiter v m =
    if awaiter == null
    then none
    else some (
      record c { given = update c.given awaiter (some v); scheduled = c.scheduled ++ awaiter ∷ [] },
      m,
    )

-- `ChannelProducerAwaiter::Resume`, a fault on the null pointer.
unfoldable pub resume_producer : Channel → Ptr → Cmd (ℕ × Channel)
resume_producer c awaiter m =
    if awaiter == null
    then none
    else some ((c.offered awaiter, record c { scheduled = c.scheduled ++ awaiter ∷ [] }), m)

unfoldable pub try_send_impl : Channel → ℕ → Cmd (Bool × Channel)
unfolding resume_consumer
try_send_impl c v =
    if ltb 0 c.consumers_queue.size
    then (do
      (awaiter, consumers) ← try_pop_front c.consumers_queue
      c' ← resume_consumer (record c { consumers_queue = consumers }) awaiter v
      pure (true, c'))
    else if ltb (sub64 c.tail c.head) c.capacity
    then pure (true, put c v)
    else pure (false, c)

unfoldable pub try_take_value_from_producers_queue : Channel → Cmd Channel
unfolding resume_producer
try_take_value_from_producers_queue c =
    if ltb 0 c.producers_queue.size
    then (do
      (awaiter, producers) ← try_pop c.producers_queue
      (v, c') ← resume_producer (record c { producers_queue = producers }) awaiter
      pure (put c' v))
    else pure c

-- Whether it returned at once; else the fiber of the awaiter is suspended.
unfoldable pub send : Channel → ℕ → Ptr → Cmd (Bool × Channel)
unfolding try_send_impl
send c v awaiter = do
  (sent, c) ← try_send_impl c v
  if sent then pure (true, c) else do
    producers ← push c.producers_queue awaiter
    pure (false, record c { producers_queue = producers; offered = update c.offered awaiter v })

unfoldable pub try_send : Channel → ℕ → Cmd (Bool × Channel)
unfolding try_send_impl
try_send c v = try_send_impl c v

-- `std::move(buffer_[(head_++) % kCapacity])`, then `TryTakeValueFromProducersQueue`.
unfoldable pub take_value : Channel → Cmd (ℕ × Channel)
unfolding try_take_value_from_producers_queue
take_value c = do
  c' ← try_take_value_from_producers_queue (record c { head = inc64 c.head })
  pure (c.buffer (c.head % c.capacity), c')

-- The value, or nothing if the fiber of the awaiter is suspended.
unfoldable pub receive : Channel → Ptr → Cmd (Option ℕ × Channel)
unfolding take_value
receive c awaiter =
    if ltb 0 (sub64 c.tail c.head) then (do (v, c) ← take_value c; pure (some v, c)) else do
      consumers ← push_back c.consumers_queue awaiter
      pure (none, record c { consumers_queue = consumers; given = update c.given awaiter none })

unfoldable pub try_receive : Channel → Cmd (Option ℕ × Channel)
unfolding take_value
try_receive c =
    if ltb 0 (sub64 c.tail c.head)
    then (do (v, c) ← take_value c; pure (some v, c))
    else pure (none, c)
