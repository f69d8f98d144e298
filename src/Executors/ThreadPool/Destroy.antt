-- ===== src/Executors/ThreadPool/Destroy.antt =====
-- executors/thread_pool/with_waitidle: the destructor.
use concurrency_library.Common.{
  ℕ, zero, suc, ◌≡◌, refl, Bool, List, [], ◌∷◌, ◌++◌, ◌==◌, if◌then◌else◌, arith, weigh, ℕ_discrete,
  ==_of_ne,
}
use concurrency_library.Executors.ThreadPool.{Routine, null, Local, ThreadPool}
use concurrency_library.Executors.ThreadPool.Count.{count, count-append, count_local, count_pool}

module _ (on_heap : Routine → Bool) where
  -- The routines of a queue that are discarded, oldest first.
  discard_queue : List Routine → List Routine
  discard_queue [] = []
  discard_queue (r ∷ rs) = let rest = discard_queue rs in if on_heap r then r ∷ rest else rest

  discard_slot : Routine → List Routine
  discard_slot r = if r == null then [] else if on_heap r then r ∷ [] else []

  -- The loop over the first `n` workers.
  discard_workers : ℕ → (ℕ → Local) → List Routine
  unfolding discard_queue discard_slot
  discard_workers zero locals = []
  discard_workers (suc n) locals =
      discard_workers n locals
      ++ (discard_slot (locals n).lifo_slot ++ discard_queue (locals n).queue)

  -- The routines that the destructor discards, in order.
  unfoldable pub destroy : ThreadPool → List Routine
  unfolding discard_workers
  destroy p = discard_queue p.global_queue ++ discard_workers p.workers p.locals

  module _ (w : Routine → ℕ) (not_null : w null ≡ 0) where
    -- The weight of a routine on the heap.
    abbrev pub on_heap_weight : Routine → ℕ
    on_heap_weight r = if on_heap r then w r else 0

    count-discard_queue : (rs : List Routine) → count w (discard_queue rs) ≡ count on_heap_weight rs
    unfolding discard_queue
    count-discard_queue [] = refl
    count-discard_queue (r ∷ rs) = ground (arith, count-discard_queue rs)

    count-discard_slot : (r : Routine) → count w (discard_slot r) ≡ on_heap_weight r
    unfolding discard_slot
    count-discard_slot r = elim (ℕ_discrete r null) [
      | yes e ↦ rw e (ground (arith, not_null))
      | no ne ↦ rw (==_of_ne r null ne) (ground arith)
    ]

    count-discard_workers :
        (n : ℕ) (locals : ℕ → Local)
        → count w (discard_workers n locals) ≡ weigh (count_local on_heap_weight) n locals
    unfolding discard_workers weigh
    count-discard_workers zero locals = refl
    count-discard_workers (suc n) locals =
        let l = locals n in
        omega (
          arith,
          count-append w (discard_workers n locals)
              (discard_slot l.lifo_slot ++ discard_queue l.queue),
          count-append w (discard_slot l.lifo_slot) (discard_queue l.queue),
          count-discard_slot l.lifo_slot,
          count-discard_queue l.queue,
          count-discard_workers n locals,
        )

    -- The destructor discards every routine on the heap that is left in a slot or queue, as often as it
    -- is there, and no other.
    pub count-destroy : (p : ThreadPool) → count w (destroy p) ≡ count_pool on_heap_weight p
    unfolding destroy
    count-destroy p = omega (
      arith,
      count-append w (discard_queue p.global_queue) (discard_workers p.workers p.locals),
      count-discard_queue p.global_queue,
      count-discard_workers p.workers p.locals,
    )
