-- ===== src/LockFree/RingQueue/Threads/Tests.antt =====
-- Two consumers race for one item of a ring of capacity 2.
use concurrency_library.Common.{ℕ, ◌≡◌, ◌≤◌, refl, [], ◌∷◌, ◌++◌, length, arith, update}
use concurrency_library.LockFree.RingQueue.{contents}
use concurrency_library.LockFree.RingQueue.Threads.{
  ready, Consumer, idle, Shared, push_load_head, push_room, push_store, push_add, Consume,
  pop_load_head, pop_some, pop_load, pop_win, System, produce, consume, Reach, here, next,
}
use concurrency_library.LockFree.RingQueue.Threads.Linear.{taken-append-contents}

record Run : Type 0 where
  at : System 2
  reach : Reach 2 at

by_consumer :
    (r : Run) (i : ℕ) {t : Shared} {c : Consumer}
    → Consume 2 r.at.shared (r.at.consumers i) t c
    → Run
by_consumer r i mv = record { at = _; reach = next r.reach (consume i mv) }

-- Item 7 has been pushed.
abbrev loaded : System 2
loaded = record {
  shared = record {
    ring = record { buffer = update (λ _. 0) 0 7; head = 0; tail = 1 };
    pushed = 7 ∷ [];
    taken = [];
  };
  producer = ready;
  consumers = λ _. idle;
}

loaded-Reach : Reach 2 loaded
loaded-Reach =
    next
      (next (next (next here (produce (push_load_head 7))) (produce (push_room (omega arith))))
        (produce push_store))
      (produce push_add)

-- Consumer 0 has loaded the head when consumer 1 takes the item.
abbrev raced : Run
unfolding by_consumer
raced =
    let r0 : Run = record { at = loaded; reach = loaded-Reach } in
    let r1 = by_consumer r0 0 pop_load_head in
    let r2 = by_consumer r1 1 pop_load_head in
    let r3 = by_consumer r2 1 (pop_some (omega arith)) in
    let r4 = by_consumer r3 1 pop_load in by_consumer r4 1 (pop_win refl)

raced_taken : raced.at.shared.taken ≡ 7 ∷ []
unfolding by_consumer
raced_taken = refl

taken-append-contents_example :
    (raced.at.shared.taken ++ contents 2 raced.at.shared.ring ≡ raced.at.shared.pushed)
    × (length (contents 2 raced.at.shared.ring) ≤ 2)
unfolding by_consumer
taken-append-contents_example = taken-append-contents 2 raced.reach (omega arith)
