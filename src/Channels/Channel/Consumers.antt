-- ===== src/Channels/Channel/Consumers.antt =====
-- channels/channel.hpp: consumers that wait. The list of their awaiters is filled by `PushBack`, which
-- counts the first node twice.
use concurrency_library.Common.{ℕ, ◌≡◌, ◌≢◌, Bool, true, none, some, [], ◌∷◌, ◌++◌, arith}
use concurrency_library.Intrusive.Memory.{
  Ptr, null, Memory, Cmd, pure, ◌>>=◌, Returns, load_next, store_next, store_prev,
}
use concurrency_library.Intrusive.BidirectionalList.{push_front, push_back, try_pop_front}
use concurrency_library.Channels.Channel.{Channel, resume_consumer, try_send_impl, send, receive}

-- One fiber receives, with awaiter `a`, and then two fibers send.
pub receive_send_send : Channel → (a b d : Ptr) (v w : ℕ) → Cmd (Bool × Bool × Channel)
receive_send_send c a b d v w = do
  (_, c) ← receive c a
  (first, c) ← send c v b
  (second, c) ← send c w d
  pure (first, second, c)

-- Two fibers receive, and then two fibers send.
pub receive_receive_send_send : Channel → (a b d e : Ptr) (v w : ℕ) → Cmd (Bool × Channel)
receive_receive_send_send c a b d e v w = do
  (_, c) ← receive c a
  (_, c) ← receive c b
  (_, c) ← send c v d
  send c w e

-- After `Receive` has suspended its fiber on an empty channel where no other consumer waits, two
-- sends both return at once, and both give their value to the one awaiter, whose fiber is scheduled
-- twice: the first value is lost.
pub receive_send_send-loses :
    (m : Memory) (c : Channel) (a b d : Ptr) (v w : ℕ)
    → c.consumers_queue.size ≡ 0
    → c.tail ≡ c.head
    → a ≢ null
    → Returns
        (λ (first, second, c') g.
          (first ≡ true)
          × (second ≡ true)
          × (c'.given a ≡ some w)
          × (c'.tail ≡ c.tail)
          × (c'.scheduled ≡ (c.scheduled ++ a ∷ []) ++ a ∷ []))
        (receive_send_send c a b d v w m)
unfolding receive_send_send receive send try_send_impl resume_consumer push_back push_front
    try_pop_front load_next store_next store_prev
receive_send_send-loses m c a b d v w none_waits nothing ne = ground arith

pub receive_receive_send_send-faults :
    (m : Memory) (c : Channel) (a b d e : Ptr) (v w : ℕ)
    → c.consumers_queue.size ≡ 0
    → c.tail ≡ c.head
    → a ≢ null
    → b ≢ null
    → a ≢ b
    → receive_receive_send_send c a b d e v w m ≡ none
unfolding receive_receive_send_send receive send try_send_impl resume_consumer push_back push_front
    try_pop_front load_next store_next store_prev
receive_receive_send_send-faults m c a b d e v w none_waits nothing na nb ne = ground arith
