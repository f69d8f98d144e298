-- ===== src/Channels/Channel/Fifo.antt =====
-- channels/channel.hpp, while no consumer waits: a channel is a bounded queue of the values that
-- were sent and not yet received, those that do not fit being with the producers that wait.
use concurrency_library.Common.{
  ℕ, suc, ◌+◌, ◌-◌, ◌<◌, ◌≤◌, ◌≡◌, ◌≢◌, refl, sym, ap, ap₂, ◌∙◌, Bool, true, false, Option, none,
  some, List, [], ◌∷◌, ◌++◌, map, length, has, update, append-nil, append_assoc, ltb, Bool-cases,
  if◌then◌else◌, ==_refl, ==_of_ne, inc64, sub64, word_mod, arith, ◌⊎◌, inl, inr, length-append,
}
use concurrency_library.Intrusive.Memory.{Ptr, null, Memory, Returns, Returns-bind}
use concurrency_library.Intrusive.Queue.{Queue, Holds, push}
use concurrency_library.Intrusive.Queue.Fifo.{Pushed, push-append}
use concurrency_library.Channels.Channel.{Channel, put, try_send_impl, send, try_send}
use concurrency_library.Channels.Channel.Ring.{contents, contents-put, length-contents}

-- No consumer waits, the producers `ws` wait, the oldest first, and only while the buffer is full.
pub record Valid (m : Memory) (c : Channel) (ws : List Ptr) : Type 0 where
  pub none_waits : c.consumers_queue.size ≡ 0
  pub waiting : Holds m c.producers_queue ws
  pub ordered : c.head ≤ c.tail
  pub fits : c.tail - c.head ≤ c.capacity
  pub full : (c.tail - c.head ≡ c.capacity) ⊎ (ws ≡ [])
  pub small : c.tail < word_mod

abbrev pub buffered : Channel → List ℕ
buffered c = contents c.buffer c.capacity c.head (c.tail - c.head)

-- The values that were sent and not yet received, the oldest first.
abbrev pub pending : Channel → List Ptr → List ℕ
pending c ws = buffered c ++ map c.offered ws

sub64-small : (a b : ℕ) → b ≤ a → a < word_mod → sub64 a b ≡ a - b
sub64-small a b le lt = omega arith

map-update :
    (f : ℕ → ℕ) (a v : ℕ) (xs : List ℕ)
    → has a xs ≡ false
    → map (update f a v) (xs ++ a ∷ []) ≡ map f xs ++ v ∷ []
map-update f a v [] out = ap (λ x. x ∷ []) (rw (==_refl a) refl)
map-update f a v (x ∷ xs) out =
    ap₂ ◌∷◌ (rw (==_of_ne a x (ground (arith, out))) refl)
      (map-update f a v xs (ground (arith, out)))

-- A value that fits goes behind the others.
pub buffered-put :
    (c : Channel) (v : ℕ)
    → c.head ≤ c.tail
    → c.tail - c.head < c.capacity
    → suc c.tail < word_mod
    → buffered (put c v) ≡ buffered c ++ v ∷ []
buffered-put c v le room small =
    ap (λ t. contents (put c v).buffer c.capacity c.head t) more
    ∙ contents-put c.buffer c.capacity c.head (c.tail - c.head) c.tail v (omega arith) room
  where
    more : inc64 c.tail - c.head ≡ suc (c.tail - c.head)
    more = omega (arith, le, small)

-- The oldest that waits, and the others.
abbrev pub oldest : List Ptr → List Ptr
oldest [] = []
oldest (a ∷ ws) = a ∷ []

abbrev pub others : List Ptr → List Ptr
others [] = []
others (a ∷ ws) = ws

-- What `Send` with awaiter `a` does: `now` tells whether it returned at once.
abbrev pub Sent : Channel → List Ptr → ℕ → Ptr → Bool × Channel → Memory → Type 0
Sent c ws v a (now, c') g =
    (now ≡ ltb (length (pending c ws)) c.capacity)
    × (pending c' (if now then ws else ws ++ a ∷ []) ≡ pending c ws ++ v ∷ [])
    × Valid g c' (if now then ws else ws ++ a ∷ [])
    × (c'.scheduled ≡ c.scheduled)

abbrev pub Tried : Channel → List Ptr → ℕ → Bool × Channel → Memory → Type 0
Tried c ws v (now, c') g =
    (now ≡ ltb (length (pending c ws)) c.capacity)
    × (pending c' ws ≡ (if now then pending c ws ++ v ∷ [] else pending c ws))
    × Valid g c' ws
    × (c'.scheduled ≡ c.scheduled)

-- What taking a value from a channel does.
abbrev pub Took : Channel → List Ptr → ℕ × Channel → Memory → Type 0
Took c ws (v, c') g =
    (pending c ws ≡ v ∷ pending c' (others ws))
    × Valid g c' (others ws)
    × (c'.scheduled ≡ c.scheduled ++ oldest ws)

abbrev pub TookIfAny : Memory → Channel → List Ptr → Option ℕ × Channel → Memory → Type 0
TookIfAny m c ws (none, c') g = (pending c ws ≡ []) × (c' ≡ c) × (g ≡ m)
TookIfAny m c ws (some v, c') g = Took c ws (v, c') g

module _ (m : Memory) (c : Channel) (ws : List Ptr) (h : Valid m c ws) where
  pub size_sub : sub64 c.tail c.head ≡ c.tail - c.head
  size_sub = sub64-small c.tail c.head h.ordered h.small

  length-pending : length (pending c ws) ≡ (c.tail - c.head) + length (map c.offered ws)
  length-pending =
      length-append (buffered c) (map c.offered ws)
      ∙ ap (λ k. k + length (map c.offered ws))
          (length-contents c.buffer c.capacity c.head (c.tail - c.head))

  room_pending : ltb (length (pending c ws)) c.capacity ≡ ltb (c.tail - c.head) c.capacity
  room_pending = elim h.full [
    | inl e ↦ ground (arith, length-pending, e)
    | inr e ↦ rw (length-pending, e) (ap (λ k. ltb k c.capacity) plus_zero)
  ]
    where
      plus_zero : (c.tail - c.head) + 0 ≡ c.tail - c.head
      plus_zero = omega arith

  none_wait : ltb (c.tail - c.head) c.capacity ≡ true → ws ≡ []
  none_wait e = elim h.full [ inl f ↦ absurd (ground (arith, e, f)) | inr f ↦ f ]

  try_send_impl-full :
      (v : ℕ)
      → ltb (c.tail - c.head) c.capacity ≡ false
      → try_send_impl c v m ≡ some ((false, c), m)
  unfolding try_send_impl
  try_send_impl-full v e = rw (h.none_waits, size_sub, e) refl

  try_send_impl-room :
      (v : ℕ)
      → ltb (c.tail - c.head) c.capacity ≡ true
      → try_send_impl c v m ≡ some ((true, put c v), m)
  unfolding try_send_impl
  try_send_impl-room v e = rw (h.none_waits, size_sub, e) refl

  put-Valid :
      (v : ℕ)
      → ltb (c.tail - c.head) c.capacity ≡ true
      → suc c.tail < word_mod
      → Valid m (put c v) ws × (pending (put c v) ws ≡ pending c ws ++ v ∷ [])
  put-Valid v e small = (
    record {
      none_waits = h.none_waits;
      waiting = h.waiting;
      ordered = omega (arith, h.ordered, small);
      fits = ground (arith, h.ordered, small, e);
      full = inr (none_wait e);
      small = omega (arith, small);
    },
    rw (buffered-put c v h.ordered (ground (arith, e)) small, none_wait e)
        (append-nil (buffered c ++ v ∷ [])
          ∙ ap (λ xs. xs ++ v ∷ []) (sym (append-nil (buffered c)))),
  )

  waits-Valid :
      (q : Queue) (v a : ℕ) (g : Memory)
      → ltb (c.tail - c.head) c.capacity ≡ false
      → has a ws ≡ false
      → Holds g q (ws ++ a ∷ [])
      → Valid g (record c { producers_queue = q; offered = update c.offered a v }) (ws ++ a ∷ [])
        × (buffered c ++ map (update c.offered a v) (ws ++ a ∷ []) ≡ pending c ws ++ v ∷ [])
  waits-Valid q v a g e out held = (
    record {
      none_waits = h.none_waits;
      waiting = held;
      ordered = h.ordered;
      fits = h.fits;
      full = inl (ground (arith, e, h.fits));
      small = h.small;
    },
    rw (map-update c.offered a v ws out)
        (sym (append_assoc (buffered c) (map c.offered ws) (v ∷ []))),
  )

  pub try_send-append : (v : ℕ) → suc c.tail < word_mod → Returns (Tried c ws v) (try_send c v m)
  unfolding try_send
  try_send-append v small = elim (Bool-cases (ltb (c.tail - c.head) c.capacity)) [
    | inl e ↦
        let kept = put-Valid v e small in
        rw (try_send_impl-room v e) (sym (room_pending ∙ e), kept.1, kept.0, refl)
    | inr e ↦ rw (try_send_impl-full v e) (sym (room_pending ∙ e), refl, h, refl)
  ]

  -- While no consumer waits, with an awaiter that is not null and does not wait yet, and short of
  -- 2^64 producers and values, `Send` makes no fault and puts its value behind all values that were
  -- sent and not yet received; it returns at once exactly if fewer of those than the capacity were
  -- pending, and else its awaiter waits behind the others. It schedules no fiber.
  pub send-append :
      (v : ℕ) (a : Ptr)
      → a ≢ null
      → has a ws ≡ false
      → suc (length ws) < word_mod
      → suc c.tail < word_mod
      → Returns (Sent c ws v a) (send c v a m)
  unfolding send
  send-append v a ne out few small = elim (Bool-cases (ltb (c.tail - c.head) c.capacity)) [
    | inl e ↦
        let kept = put-Valid v e small in
        rw (try_send_impl-room v e) (sym (room_pending ∙ e), kept.1, kept.0, refl)
    | inr e ↦ rw (try_send_impl-full v e) (
        Returns-bind (Pushed m ws a) (Sent c ws v a) (push c.producers_queue a m)
          (λ producers g.
            some (
              (false, record c { producers_queue = producers; offered = update c.offered a v }),
              g,
            ))
          (push-append m c.producers_queue ws a h.waiting ne out few)
          (λ q g pushed.
            let kept = waits-Valid q v a g e out pushed.0 in
            (sym (room_pending ∙ e), kept.1, kept.0, refl)))
  ]
