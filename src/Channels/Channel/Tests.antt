-- ===== src/Channels/Channel/Tests.antt =====
-- A full channel of capacity 2, without and with a producer that waits, and an empty channel.
use concurrency_library.Common.{
  ◌≡◌, ◌≢◌, refl, true, none, some, [], ◌∷◌, ◌++◌, ◌==◌, if◌then◌else◌, arith, inl, inr,
}
use concurrency_library.Intrusive.Memory.{Memory, Returns}
use concurrency_library.Channels.Channel.{Channel, make, send, try_send, receive, try_receive}
use concurrency_library.Channels.Channel.Ring.{contents}
use concurrency_library.Channels.Channel.Fifo.{
  Valid, Sent, Tried, TookIfAny, pending, try_send-append, send-append,
}
use concurrency_library.Channels.Channel.Taking.{try_receive-takes, receive-try_receive}
use concurrency_library.Channels.Channel.Consumers.{
  receive_send_send, receive_receive_send_send, receive_send_send-loses,
  receive_receive_send_send-faults,
}

abbrev memory : Memory
memory = record { next = λ _. 0; prev = λ _. 0 }

abbrev full : Channel
unfolding make
full = record (make 2) { buffer = λ p. if p == 0 then 5 else 6; tail = 2 }

full-Valid : Valid memory full []
unfolding make
full-Valid = record {
  none_waits = refl;
  waiting = record { chain = refl; distinct = tt; back = refl; count = refl };
  ordered = omega arith;
  fits = omega arith;
  full = inr refl;
  small = omega arith;
}

abbrev waited : Channel
unfolding make
waited = record full { producers_queue = record { head = 9; tail = 9; size = 1 }; offered = λ _. 7 }

waited-Valid : Valid memory waited (9 ∷ [])
unfolding make
waited-Valid = record {
  none_waits = refl;
  waiting = record {
    chain = (refl, (omega arith), refl);
    distinct = (refl, tt);
    back = refl;
    count = refl;
  };
  ordered = omega arith;
  fits = omega arith;
  full = inl refl;
  small = omega arith;
}

send-append_example : Returns (Sent full [] 7 9) (send full 7 9 memory)
unfolding make
send-append_example =
    send-append memory full [] full-Valid 7 9 (ground arith) refl (omega arith) (omega arith)

try_send-append_example : Returns (Tried full [] 7) (try_send full 7 memory)
unfolding make
try_send-append_example = try_send-append memory full [] full-Valid 7 (omega arith)

try_receive-takes_example : Returns (TookIfAny memory waited (9 ∷ [])) (try_receive waited memory)
unfolding make
try_receive-takes_example =
    try_receive-takes memory waited (9 ∷ []) waited-Valid (omega arith) (omega arith) (omega arith)

some_pending : pending waited (9 ∷ []) ≢ []
unfolding make contents
some_pending = cc

receive-try_receive_example : receive waited 3 memory ≡ try_receive waited memory
unfolding make
receive-try_receive_example =
    receive-try_receive memory waited (9 ∷ []) waited-Valid 3 (omega arith) some_pending

receive_send_send-loses_example :
    Returns
      (λ (first, second, c') g.
        (first ≡ true)
        × (second ≡ true)
        × (c'.given 3 ≡ some 8)
        × (c'.tail ≡ (make 2).tail)
        × (c'.scheduled ≡ ((make 2).scheduled ++ 3 ∷ []) ++ 3 ∷ []))
      (receive_send_send (make 2) 3 4 5 7 8 memory)
unfolding make
receive_send_send-loses_example =
    receive_send_send-loses memory (make 2) 3 4 5 7 8 refl refl (ground arith)

receive_receive_send_send-faults_example :
    receive_receive_send_send (make 2) 3 4 5 6 7 8 memory ≡ none
unfolding make
receive_receive_send_send-faults_example =
    receive_receive_send_send-faults memory (make 2) 3 4 5 6 7 8 refl refl (ground arith)
      (ground arith) (ground arith)
