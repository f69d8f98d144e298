-- ===== src/LockFree/RingQueue/Threads/Linear.antt =====
-- lockfree/ring_queue.hpp: the interleaved ring is a queue, in the order of its compare-exchanges.
use concurrency_library.Common.{
  ℕ, zero, suc, ◌+◌, ◌-◌, ◌<◌, ◌≤◌, ◌≡◌, refl, sym, ap₂, ◌∙◌, [], ◌∷◌, ◌++◌, length, take, drop,
  take_add, take_snoc, take-length, word_mod, arith,
}
use concurrency_library.LockFree.RingQueue.{window, contents}
use concurrency_library.LockFree.RingQueue.Contents.{window_snoc, length-window}
use concurrency_library.LockFree.RingQueue.Threads.{Shared, System, Reach}
use concurrency_library.LockFree.RingQueue.Threads.Invariant.{Core}
use concurrency_library.LockFree.RingQueue.Threads.Kept.{Reach-Inv}

module _ (capacity : ℕ) where
  window-pushed :
      (s : Shared) (core : Core capacity s) (n : ℕ)
      → s.head + n ≤ s.tail
      → window capacity s.buffer s.head n ≡ take n (drop s.head s.pushed)
  window-pushed s core zero h = refl
  window-pushed s core (suc n) h =
      window_snoc capacity s.buffer s.head n
      ∙ ap₂ (λ xs x. xs ++ x ∷ []) (window-pushed s core n (omega arith))
          (core.live (s.head + n) (omega arith) (omega arith))
      ∙ sym (take_snoc n s.head s.pushed 0 (omega (arith, core.count)))

  -- In every interleaving of one producer with any number of consumers, while fewer than 2^64 items
  -- were pushed: the items taken by `TryPop` and `Grab`, in the order of their compare-exchanges,
  -- followed by the items in the ring, are the items pushed in their order, so that none is lost
  -- and none is taken twice; and the ring holds at most `Capacity` items.
  pub taken-append-contents :
      {s : System capacity}
      → Reach capacity s
      → length s.shared.pushed < word_mod
      → (s.shared.taken ++ contents capacity s.shared.ring ≡ s.shared.pushed)
        × (length (contents capacity s.shared.ring) ≤ capacity)
  taken-append-contents {s} r small =
      let core : Core capacity s.shared = (Reach-Inv capacity r small).core in
      let all : s.shared.head + (s.shared.tail - s.shared.head) ≡ length s.shared.pushed =
        omega (arith, core.order, core.count) in
      (
        rw
            (
              core.prefix,
              window-pushed s.shared core (s.shared.tail - s.shared.head)
                  (omega (arith, core.order)),
            )
            (sym (take_add s.shared.head (s.shared.tail - s.shared.head) s.shared.pushed)
              ∙ rw (all) (take-length s.shared.pushed)),
        omega (
          arith,
          core.room,
          length-window capacity s.shared.buffer s.shared.head (s.shared.tail - s.shared.head),
        ),
      )
