-- ===== src/LockFree/RingQueue/Threads/Kept.antt =====
-- lockfree/ring_queue.hpp: what every interleaving keeps, while fewer than 2^64 items were pushed.
use concurrency_library.Common.{
  ℕ, suc, ◌+◌, ◌-◌, ◌%◌, ◌<◌, ◌≤◌, ◌≡◌, ◌≢◌, refl, sym, ap, ap₂, dec_lt, ◌∙◌, List, [], ◌∷◌, ◌++◌,
  length, take, drop, get_or-append_left, get_or-append_length, take-append, take_add, take_snoc,
  length-append, ==_of_ne, ==_refl, inc64, add64, word_mod, arith, append-nil, update-all,
}
use native.Mathlib.Nat.{add-zero}
use concurrency_library.LockFree.RingQueue.{Item}
use concurrency_library.LockFree.RingQueue.Contents.{add-mod-ne, next_pos-mod}
use concurrency_library.LockFree.RingQueue.Threads.{
  Producer, Consumer, Shared, Produce, push_load_head, push_full, push_room, push_store, push_add,
  Consume, pop_load_head, pop_empty, pop_some, pop_load, pop_win, pop_lose, grab_load_head,
  grab_begin, grab_item, grab_copied, grab_win, grab_lose, System, Step, produce, consume, Reach,
  here, next,
}
use concurrency_library.LockFree.RingQueue.Threads.Invariant.{
  ProducerFact, ConsumerFact, Core, Inv, ConsumerFact-mono, ProducerFact-mono,
}

module _ (capacity : ℕ) where
  -- What a step of a consumer leaves alone.
  record Kept (s t : Shared) : Type 0 where
    forward : s.head ≤ t.head
    same_tail : t.tail ≡ s.tail
    same_pushed : t.pushed ≡ s.pushed
    same_buffer : t.buffer ≡ s.buffer

  unchanged : (s : Shared) → Kept s s
  unchanged s = record {
    forward = omega arith;
    same_tail = refl;
    same_pushed = refl;
    same_buffer = refl;
  }

  module _ {s : Shared} (core : Core capacity s) where
    open core use {order, room, count, prefix, live}

    -- What a consumer takes with its compare-exchange is what the pushes gave next.
    Core-take :
        (queue : List Item)
        → s.head + length queue ≤ s.tail
        → length s.pushed < word_mod
        → queue ≡ take (length queue) (drop s.head s.pushed)
        → (head' : ℕ) → head' ≡ s.head + length queue
        → Core capacity
            (record s { ring = record s.ring { head = head' }; taken = s.taken ++ queue })
    Core-take queue h small e head' eq = record {
      order = omega arith;
      room = omega arith;
      count = count;
      prefix =
          rw (prefix, eq, take_add s.head (length queue) s.pushed)
            (ap (◌++◌ (take s.head s.pushed)) e);
      live = λ k a b. live k (omega arith) b;
    }

    Consume-Core :
        {k k' : Consumer} {t : Shared}
        → length s.pushed < word_mod
        → ConsumerFact capacity s.head s.tail s.pushed k
        → Consume capacity s k t k'
        → Core capacity t × ConsumerFact capacity t.head t.tail t.pushed k' × Kept s t
    Consume-Core small f pop_load_head = (core, omega arith, unchanged s)
    Consume-Core small f (pop_empty e) = (core, tt, unchanged s)
    Consume-Core small f (pop_some ne) = (core, (omega arith, omega arith), unchanged s)
    Consume-Core small f (pop_load {head}) =
        (core, (f.0, f.1, λ e. live head (omega arith) (f.1 e)), unchanged s)
    Consume-Core small f (pop_win {head} {result} e) =
        let next_item : result ∷ [] ≡ take 1 (drop s.head s.pushed) =
          rw (take_snoc 0 s.head s.pushed 0 (omega arith), add-zero s.head, e)
            (ap (λ x. x ∷ []) (f.2 (sym e))) in
        (
          Core-take (result ∷ []) (omega arith) small next_item (inc64 head) (omega arith),
          tt,
          record {
            forward = omega arith;
            same_tail = refl;
            same_pushed = refl;
            same_buffer = refl;
          },
        )
    Consume-Core small f (pop_lose ne) = (core, omega arith, unchanged s)
    Consume-Core small f (grab_load_head size) = (core, omega arith, unchanged s)
    Consume-Core small f (grab_begin {head} {size}) = (
      core,
      (
        f,
        omega arith,
        omega (arith, order),
        ap (λ a. a % (capacity + 1)) (sym (add-zero head)),
        λ e. refl,
      ),
      unchanged s,
    )
    Consume-Core small f (grab_item {head} {size} {count = n} {pos} {queue} lt) =
        let grown : length (queue ++ s.buffer pos ∷ []) ≡ suc (length queue) =
          omega (arith, length-append queue (s.buffer pos ∷ [])) in
        let shift : head + length queue + 1 ≡ head + suc (length queue) = omega arith in
        (
          core,
          (
            f.0,
            omega arith,
            f.2,
            rw (grown, f.3, next_pos-mod capacity (head + length queue), shift),
            λ e.
                rw (grown, take_snoc (length queue) head s.pushed 0 (omega arith))
                  (ap₂ (λ xs x. xs ++ x ∷ []) (f.4 e)
                    (rw f.3 (live (head + length queue) (omega arith) (omega arith)))),
          ),
          unchanged s,
        )
    Consume-Core small f (grab_copied le) = (core, (f.0, omega arith, f.2, f.4), unchanged s)
    Consume-Core small f (grab_win {head} {size} {count = n} {queue} e) =
        let next_items : queue ≡ take (length queue) (drop s.head s.pushed) = rw e (f.3 (sym e)) in
        (
          Core-take queue (omega arith) small next_items (add64 head n) (omega arith),
          tt,
          record {
            forward = omega arith;
            same_tail = refl;
            same_pushed = refl;
            same_buffer = refl;
          },
        )
    Consume-Core small f (grab_lose ne) = (core, omega arith, unchanged s)

    Produce-Core :
        {p p' : Producer} {t : Shared}
        → length t.pushed < word_mod
        → ProducerFact capacity s.head s.tail s.buffer p
        → Produce capacity s p t p'
        → Core capacity t
          × ProducerFact capacity t.head t.tail t.buffer p'
          × (t.head ≡ s.head)
          × (s.tail ≤ t.tail)
          × (ys : List Item) × (t.pushed ≡ s.pushed ++ ys)
    Produce-Core small f (push_load_head item) =
        (core, omega arith, refl, omega arith, [], sym (append-nil s.pushed))
    Produce-Core small f (push_full e) =
        (core, tt, refl, omega arith, [], sym (append-nil s.pushed))
    Produce-Core small f (push_room ne) =
        (core, (refl, omega arith), refl, omega arith, [], sym (append-nil s.pushed))
    Produce-Core small f (push_store {item} {tail}) = (
      record {
        order = order;
        room = room;
        count = count;
        prefix = prefix;
        live = λ k a b.
            let gap : k + (s.tail - k) ≡ s.tail = omega arith in
            let apart : tail % (capacity + 1) ≢ k % (capacity + 1) = λ e.
              add-mod-ne (capacity + 1) k (s.tail - k) (omega arith) (omega arith)
                (rw (gap, ← f.0) e) in
            rw (==_of_ne (tail % (capacity + 1)) (k % (capacity + 1)) apart) (live k a b);
      },
      (rw (f.0, ==_refl (s.tail % (capacity + 1))) refl, f.1),
      refl,
      omega arith,
      [],
      sym (append-nil s.pushed),
    )
    Produce-Core small f (push_add {item}) =
        let small' : suc (length s.pushed) < word_mod =
          omega (arith, length-append s.pushed (item ∷ [])) in
        (
          record {
            order = omega arith;
            room = omega arith;
            count = omega (arith, length-append s.pushed (item ∷ []));
            prefix = prefix ∙ sym (take-append s.head s.pushed (item ∷ []) (omega arith));
            live = λ k a b. elim (dec_lt k s.tail) [
              | yes old ↦
                  live k a old ∙ sym (get_or-append_left s.pushed (item ∷ []) k 0 (omega arith))
              | no new ↦
                  let e : k ≡ length s.pushed = omega arith in
                  rw (e, get_or-append_length s.pushed item 0, ← count) f.0
            ];
          },
          tt,
          refl,
          omega (arith, length-append s.pushed (item ∷ [])),
          item ∷ [],
          refl,
        )

  Produce-grows :
      {s t : Shared} {p p' : Producer}
      → Produce capacity s p t p'
      → length s.pushed ≤ length t.pushed
  Produce-grows {s} (push_add {item}) = omega (arith, length-append s.pushed (item ∷ []))
  Produce-grows (push_load_head item) = omega arith
  Produce-grows mv = omega arith

  Consume-pushed :
      {s t : Shared} {k k' : Consumer} → Consume capacity s k t k' → t.pushed ≡ s.pushed
  Consume-pushed pop_load_head = refl
  Consume-pushed mv = refl

  pub Step-Inv :
      {s t : System capacity}
      → length t.shared.pushed < word_mod
      → Step capacity s t
      → (length s.shared.pushed < word_mod → Inv capacity s.shared s.producer s.consumers)
      → Inv capacity t.shared t.producer t.consumers
  Step-Inv {s} small (produce {t} {p = p'} mv) inv =
      let i : Inv capacity s.shared s.producer s.consumers =
        inv (omega (arith, Produce-grows mv)) in
      let (core, fact, same, grown, ys, longer) = Produce-Core i.core small i.producer_fact mv in
      record {
        core = core;
        producer_fact = fact;
        consumer_fact = λ j. rw longer (
            ConsumerFact-mono capacity s.shared.head s.shared.tail t.head t.tail s.shared.pushed ys
              (s.consumers j) (omega arith) i.core.order grown i.core.count (i.consumer_fact j));
      }
  Step-Inv {s} small (consume k {t} {c = c'} mv) inv =
      let small' : length s.shared.pushed < word_mod = rw (Consume-pushed mv) at small in
      let i : Inv capacity s.shared s.producer s.consumers = inv small' in
      let (core, fact, kept) = Consume-Core i.core small' (i.consumer_fact k) mv in
      record {
        core = core;
        producer_fact =
            rw (kept.same_tail, kept.same_buffer)
              (ProducerFact-mono capacity s.shared.head t.head s.shared.tail s.shared.buffer
                s.producer kept.forward i.producer_fact);
        consumer_fact =
            update-all (ConsumerFact capacity t.head t.tail t.pushed) s.consumers k c' fact λ j.
              rw (kept.same_pushed, ← append-nil s.shared.pushed)
                (ConsumerFact-mono capacity s.shared.head s.shared.tail t.head t.tail
                  s.shared.pushed [] (s.consumers j) kept.forward i.core.order
                  (omega (arith, kept.same_tail)) i.core.count (i.consumer_fact j));
      }

  pub Reach-Inv :
      {s : System capacity}
      → Reach capacity s
      → length s.shared.pushed < word_mod
      → Inv capacity s.shared s.producer s.consumers
  Reach-Inv here small = record {
    core = record {
      order = omega arith;
      room = omega arith;
      count = refl;
      prefix = refl;
      live = λ k a b. absurd (omega arith);
    };
    producer_fact = tt;
    consumer_fact = λ i. tt;
  }
  Reach-Inv (next r st) small = Step-Inv small st (Reach-Inv r)
