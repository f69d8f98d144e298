-- ===== src/Executors/ManualExecutor/Idle.antt =====
-- executors/manual_executor.hpp: `WaitIdle` ends.
use concurrency_library.Common.{
  ℕ, zero, suc, ◌+◌, ◌<◌, ◌≤◌, ◌≡◌, refl, sym, ap, ◌∙◌, ◌==◌, Bool, true, false, List, [], ◌∷◌,
  ◌++◌, has, min, length, length-append, append_assoc, append-nil, word_mod, arith,
}
use concurrency_library.Intrusive.Memory.{null, Memory, Returns, Returns-bind}
use concurrency_library.Executors.ManualExecutor.{
  Routine, Event, ManualExecutor, run_loop, run_at_most, run_next, wait_idle,
}
use concurrency_library.Executors.ManualExecutor.Runs.{
  Waits, total, total-append, bit, IsOnce, spawned, events, events-cons, run_loop-one,
}

-- The routines of `order` ran, each followed by its discarding if it is on the heap, and every
-- routine that one of them submits follows in it, behind those that waited before.
abbrev pub AllRan :
    (Routine → List Routine)
    → (Routine → Bool)
    → List Routine
    → List Event
    → List Event
    → ℕ
    → Type 0
AllRan spawns on_heap xs before after n =
    (order : List Routine) × (after ≡ before ++ events spawns on_heap order)
    × (order ≡ xs ++ spawned spawns on_heap order)
    × (n ≡ length order)

module _ (spawns : Routine → List Routine) (on_heap : Routine → Bool) (weight : Routine → ℕ)
    (uses : Routine → Routine → ℕ) (descends : (r : Routine) → total weight (spawns r) < weight r)
    (once : (a r : Routine) → bit (a == r) + total (uses a) (spawns r) ≤ uses a r)
    (safe : (r : Routine) → has null (spawns r) ≡ false) where
  length-le-total : (rs : List Routine) → length rs ≤ total weight rs
  length-le-total [] = omega arith
  length-le-total (r ∷ rs) = omega (arith, length-le-total rs, descends r)

  -- What `RunNext` gives: on an empty queue false and no change, else it has run the oldest.
  abbrev Next : List Routine → List Event → Bool × ManualExecutor → Memory → Type 0
  Next [] log p m = (p.0 ≡ false) × Waits [] 0 log p.1 m
  Next (r ∷ rest) log p m =
      (p.0 ≡ true) × Waits (rest ++ spawns r) 0 (log ++ events spawns on_heap (r ∷ [])) p.1 m

  run_next-Next :
      (m : Memory) (e : ManualExecutor) (xs : List Routine) (log : List Event)
      → Waits xs 0 log e m
      → IsOnce uses xs
      → total weight xs < word_mod
      → Returns (Next xs log) (run_next spawns on_heap e m)
  unfolding run_next run_at_most run_loop
  run_next-Next m e [] log w one small =
      let none_left : e.queue_size ≡ 0 = omega (arith, w.size) in
      rw none_left (refl, record { holds = w.holds; size = refl; logged = w.logged })
  run_next-Next m e (r ∷ rest) log w one small =
      let single : min e.queue_size 1 ≡ 1 = omega (arith, w.size) in
      rw single (
        Returns-bind
          (λ p g.
            (p.0 ≡ 1) × Waits (rest ++ spawns r) 0 (log ++ events spawns on_heap (r ∷ [])) p.1 g)
          (Next (r ∷ rest) log) _ _
          (Returns-bind (Waits (rest ++ spawns r) 1 (log ++ events spawns on_heap (r ∷ [])))
            (λ p g.
              (p.0 ≡ 1) × Waits (rest ++ spawns r) 0 (log ++ events spawns on_heap (r ∷ [])) p.1 g)
            (run_loop spawns on_heap 1 e m) _
            (run_loop-one spawns on_heap uses once m e r rest log w w.holds.chain.1 (safe r)
              (λ a. omega (arith, one a, once a r, total-append (uses a) rest (spawns r)))
              (omega (arith, small, descends r, length-le-total rest, length-le-total (spawns r))))
            (λ e' g w'. (
              refl,
              record {
                holds = w'.holds;
                size = omega (
                  arith,
                  w'.size,
                  small,
                  descends r,
                  length-le-total rest,
                  length-le-total (spawns r),
                  length-append rest (spawns r),
                );
                logged = w'.logged;
              },
            )))
          (λ p g h. (rw h.0 refl, h.1)))

  -- One more has run.
  more_ran :
      (r : Routine) (rest : List Routine) (before after : List Event) (n : ℕ)
      → AllRan spawns on_heap (rest ++ spawns r) (before ++ events spawns on_heap (r ∷ [])) after n
      → AllRan spawns on_heap (r ∷ rest) before after (suc n)
  more_ran r rest before after n (order, logged, ordered, counted) = (
    r ∷ order,
    logged ∙ events-cons spawns on_heap r order before,
    ap (◌∷◌ r) (ordered ∙ append_assoc rest (spawns r) (spawned spawns on_heap order)),
    ap suc counted,
  )

  -- In memory, where the queue holds the routines `xs` and the size counts them, where none of
  -- these and of those that they lead to is submitted more than once, and where each routine weighs
  -- more than all that it submits and submits no null: with more fuel than all waiting routines
  -- weigh, which is fewer than 2^64, `WaitIdle` ends and makes no fault, no routine waits then and
  -- the size is 0. It counts the routines that it ran: in order those that waited, and then those
  -- that each of these submits, in the order in which it ran them, each discarded after it ran if
  -- it is on the heap.
  pub wait_idle-Returns :
      (fuel : ℕ) (m : Memory) (e : ManualExecutor) (xs : List Routine) (log : List Event)
      → Waits xs 0 log e m
      → IsOnce uses xs
      → total weight xs < fuel
      → total weight xs < word_mod
      → Returns
          (λ p g. Waits [] 0 p.1.log p.1 g × AllRan spawns on_heap xs log p.1.log p.0)
          (wait_idle spawns on_heap fuel e m)
  unfolding wait_idle
  wait_idle-Returns zero m e xs log w one enough small = absurd (omega (arith, enough))
  wait_idle-Returns (suc fuel) m e [] log w one enough small =
      Returns-bind (Next [] log)
        (λ p g. Waits [] 0 p.1.log p.1 g × AllRan spawns on_heap [] log p.1.log p.0)
        (run_next spawns on_heap e m) _ (run_next-Next m e [] log w one small)
        (λ p g next. rw next.0 (
          record { holds = next.1.holds; size = next.1.size; logged = refl },
          ([], next.1.logged ∙ sym (append-nil log), refl, refl),
        ))
  wait_idle-Returns (suc fuel) m e (r ∷ rest) log w one enough small =
      Returns-bind (Next (r ∷ rest) log)
        (λ p g. Waits [] 0 p.1.log p.1 g × AllRan spawns on_heap (r ∷ rest) log p.1.log p.0)
        (run_next spawns on_heap e m) _ (run_next-Next m e (r ∷ rest) log w one small)
        (λ p g next. rw next.0 (
          Returns-bind
            (λ p g.
              Waits [] 0 p.1.log p.1 g
              × AllRan spawns on_heap (rest ++ spawns r) (log ++ events spawns on_heap (r ∷ []))
                  p.1.log p.0)
            (λ p g. Waits [] 0 p.1.log p.1 g × AllRan spawns on_heap (r ∷ rest) log p.1.log p.0)
            (wait_idle spawns on_heap fuel p.1 g) _
            (wait_idle-Returns fuel g p.1 (rest ++ spawns r) (log ++ events spawns on_heap (r ∷ []))
              next.1 (λ a. omega (arith, one a, once a r, total-append (uses a) rest (spawns r)))
              (omega (arith, enough, descends r, total-append weight rest (spawns r)))
              (omega (arith, small, descends r, total-append weight rest (spawns r))))
            (λ q h done. (done.0, more_ran r rest log q.1.log q.0 done.1))))
