-- ===== src/Channels/Channel/Taking.antt =====
-- channels/channel.hpp, while no consumer waits: taking a value gives the oldest one, and lets the
-- value of the producer that waits longest into the buffer.
use concurrency_library.Common.{
  suc, ◌-◌, ◌%◌, ◌<◌, ◌≤◌, ◌≡◌, ◌≢◌, refl, sym, ap, ap₂, ◌∙◌, false, some, List, [], ◌∷◌, ◌++◌, map,
  length, append-nil, append_assoc, ltb, lt→ltb, subst, Bool-cases, ==_of_ne, inc64, sub64,
  word_mod, arith, inl, inr,
}
use concurrency_library.Intrusive.Memory.{Ptr, null, Memory, Returns, Returns-bind, pure, ◌>>=◌}
use concurrency_library.Intrusive.Queue.{Queue, Holds, try_pop}
use concurrency_library.Intrusive.Queue.Fifo.{Popped, try_pop-Popped}
use concurrency_library.Channels.Channel.{
  Channel, put, try_take_value_from_producers_queue, take_value, receive, try_receive,
  resume_producer,
}
use concurrency_library.Channels.Channel.Ring.{contents}
use concurrency_library.Channels.Channel.Fifo.{
  Valid, buffered, pending, buffered-put, others, oldest, Took, TookIfAny,
}

abbrev moved : Channel → Channel
moved c = record c { head = inc64 c.head }

-- The oldest value and the rest.
buffered-moved :
    (c : Channel)
    → c.head < c.tail
    → c.tail < word_mod
    → buffered c ≡ c.buffer (c.head % c.capacity) ∷ buffered (moved c)
unfolding contents
buffered-moved c lt small =
    ap (contents c.buffer c.capacity c.head) one_more
    ∙ ap₂ (λ h k. c.buffer (c.head % c.capacity) ∷ contents c.buffer c.capacity h k) step refl
  where
    one_more : c.tail - c.head ≡ suc (c.tail - inc64 c.head)
    one_more = omega (arith, lt, small)

    step : suc c.head ≡ inc64 c.head
    step = omega (arith, lt, small)

module _ (m : Memory) (c : Channel) (lt : c.head < c.tail) (small : suc c.tail < word_mod) where
  -- What `TryTakeValueFromProducersQueue` leaves.
  abbrev Refilled : List Ptr → Channel → Memory → Type 0
  Refilled ws c' g =
      (buffered c' ++ map c'.offered (others ws) ≡ buffered (moved c) ++ map c.offered ws)
      × Valid g c' (others ws)
      × (c'.scheduled ≡ c.scheduled ++ oldest ws)

  none_there : c.producers_queue.size ≡ 0 → ltb 0 c.producers_queue.size ≡ false
  none_there e = ap (ltb 0) e

  -- The oldest producer is scheduled, and its value is put into the place that has become free.
  entered :
      (a : Ptr) (ws : List Ptr) (awaiter : Ptr) (q : Queue) (g : Memory)
      → Valid m c (a ∷ ws)
      → awaiter ≡ a
      → Holds g q ws
      → Refilled
          (a ∷ ws)
          (put
            (record (moved c) { producers_queue = q; scheduled = c.scheduled ++ awaiter ∷ [] })
            (c.offered awaiter))
          g
  entered a ws awaiter q g h same held = (
    ap (λ xs. xs ++ map c.offered ws)
          (buffered-put (moved c) (c.offered awaiter) (omega (arith, lt, small))
            (omega (arith, lt, small, h.fits)) small)
        ∙ append_assoc (buffered (moved c)) (c.offered awaiter ∷ []) (map c.offered ws)
        ∙ ap (λ k. buffered (moved c) ++ c.offered k ∷ map c.offered ws) same,
    record {
      none_waits = h.none_waits;
      waiting = held;
      ordered = omega (arith, lt, small);
      fits = omega (arith, lt, small, h.fits);
      full = elim h.full [
        | inl e ↦ inl (omega (arith, lt, small, e))
        | inr e ↦ absurd (omega (arith, ap length e))
      ];
      small = omega (arith, small);
    },
    ap (λ k. c.scheduled ++ k ∷ []) same,
  )

  refill :
      (ws : List Ptr)
      → Valid m c ws
      → length ws < word_mod
      → Returns (Refilled ws) (try_take_value_from_producers_queue (moved c) m)
  unfolding try_take_value_from_producers_queue resume_producer
  refill [] h few = rw (none_there h.waiting.count) (
    refl,
    record {
      none_waits = h.none_waits;
      waiting = h.waiting;
      ordered = omega (arith, lt, small);
      fits = omega (arith, lt, small, h.fits);
      full = inr refl;
      small = h.small;
    },
    sym (append-nil c.scheduled),
  )
  refill (a ∷ ws) h few = rw (lt→ltb 0 c.producers_queue.size (omega (arith, h.waiting.count))) (
      Returns-bind (Popped m c.producers_queue (a ∷ ws)) (Refilled (a ∷ ws))
        (try_pop c.producers_queue m)
        (λ (awaiter, producers).
          resume_producer (record (moved c) { producers_queue = producers }) awaiter >>= λ (v, c').
          pure (put c' v))
        (try_pop-Popped m c.producers_queue (a ∷ ws) h.waiting few)
        (λ (awaiter, producers) g popped.
          rw (==_of_ne awaiter null (rw popped.0 h.waiting.chain.1)) (
            entered a ws awaiter producers g h popped.0
              (subst (λ k. Holds k producers ws) (sym popped.2) popped.1))))

  take_value-Took :
      (ws : List Ptr) → Valid m c ws → length ws < word_mod → Returns (Took c ws) (take_value c m)
  unfolding take_value
  take_value-Took ws h few =
      Returns-bind (Refilled ws) (Took c ws) (try_take_value_from_producers_queue (moved c) m)
        (λ c' g. some ((c.buffer (c.head % c.capacity), c'), g)) (refill ws h few)
        (λ c' g refilled. (
          ap (λ xs. xs ++ map c.offered ws) (buffered-moved c lt (omega (arith, small)))
              ∙ ap (λ xs. c.buffer (c.head % c.capacity) ∷ xs) (sym refilled.0),
          refilled.1,
          refilled.2,
        ))

-- What `Receive` and `TryReceive` test.
holds_some :
    (c : Channel)
    → c.head ≤ c.tail
    → c.tail < word_mod
    → ltb 0 (sub64 c.tail c.head) ≡ ltb c.head c.tail
holds_some c le small = ground arith

module _ (m : Memory) (c : Channel) (ws : List Ptr) (h : Valid m c ws) where
  -- While no consumer waits, in a channel whose capacity is not 0, and short of 2^64 producers and
  -- values, `TryReceive` makes no fault: if nothing is pending it gives nothing and changes
  -- nothing, and else it gives the oldest value that was sent and not yet received, and schedules
  -- the fiber of the producer that waits longest, if one waits, whose value stays pending in its
  -- place.
  pub try_receive-takes :
      0 < c.capacity
      → length ws < word_mod
      → suc c.tail < word_mod
      → Returns (TookIfAny m c ws) (try_receive c m)
  unfolding try_receive contents
  try_receive-takes positive few small = elim (Bool-cases (ltb c.head c.tail)) [
    | inl e ↦ rw (holds_some c h.ordered h.small ∙ e) (
        Returns-bind (Took c ws) (TookIfAny m c ws) (take_value c m)
          (λ (v, c') g. some ((some v, c'), g))
          (take_value-Took m c (ground (arith, e)) small ws h few) (λ (v, c') g took. took))
    | inr e ↦
        rw (holds_some c h.ordered h.small ∙ e) (nothing (ground (arith, e, h.ordered)), refl, refl)
  ]
    where
      nothing : c.tail - c.head ≡ 0 → pending c ws ≡ []
      nothing e = elim h.full [
        | inl f ↦ absurd (omega (arith, e, f, positive))
        | inr f ↦ rw (e, f) refl
      ]

  -- While a value is pending, `Receive` does what `TryReceive` does.
  pub receive-try_receive :
      (a : Ptr) → 0 < c.capacity → pending c ws ≢ [] → receive c a m ≡ try_receive c m
  unfolding receive try_receive contents
  receive-try_receive a positive some_there = elim (Bool-cases (ltb c.head c.tail)) [
    | inl e ↦ rw (holds_some c h.ordered h.small ∙ e) refl
    | inr e ↦ absurd (some_there (nothing (ground (arith, e, h.ordered))))
  ]
    where
      nothing : c.tail - c.head ≡ 0 → pending c ws ≡ []
      nothing e = elim h.full [
        | inl f ↦ absurd (omega (arith, e, f, positive))
        | inr f ↦ rw (e, f) refl
      ]
