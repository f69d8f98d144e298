-- ===== src/Executors/ManualExecutor/Runs.antt =====
-- executors/manual_executor.hpp: what executing routines and running one does to the queue.
use concurrency_library.Common.{
  ℕ, suc, ◌+◌, ◌<◌, ◌≤◌, ◌≡◌, ◌≢◌, refl, sym, ap, subst, ◌==◌, ==_of_ne, ==_refl, Bool, false, List,
  [], ◌∷◌, ◌++◌, has, if◌then◌else◌, length, length-append, append_assoc, append-nil, Bool-cases,
  inl, inr, word_mod, arith,
}
use concurrency_library.Intrusive.Memory.{null, Memory, Returns, Returns-bind}
use concurrency_library.Intrusive.Queue.{Holds, push, try_pop}
use concurrency_library.Intrusive.Queue.Fifo.{Pushed, push-append, Popped, try_pop-Popped}
use concurrency_library.Executors.ManualExecutor.{
  Routine, Event, ran, discarded, ManualExecutor, execute, execute_all, run_routine, run_loop,
}

-- The routines `xs` wait, oldest first; the size counts them and `extra` more.
pub record Waits (xs : List Routine) (extra : ℕ) (log : List Event) (e : ManualExecutor)
    (m : Memory) : Type 0 where
  pub holds : Holds m e.tasks_queue xs
  pub size : e.queue_size ≡ length xs + extra
  pub logged : e.log ≡ log

module _ (weight : Routine → ℕ) where
  abbrev pub total : List Routine → ℕ
  total [] = 0
  total (r ∷ rs) = weight r + total rs

  pub total-append : (xs ys : List Routine) → total (xs ++ ys) ≡ total xs + total ys
  total-append [] ys = omega arith
  total-append (x ∷ xs) ys = omega (arith, total-append xs ys)

abbrev pub bit : Bool → ℕ
bit b = if b then 1 else 0

-- Where `uses a r` bounds how often `a` is submitted as `r` or by what `r` leads to: none of the
-- routines `xs`, and of those that they lead to, is submitted more than once.
abbrev pub IsOnce : (Routine → Routine → ℕ) → List Routine → Type 0
IsOnce uses xs = (a : Routine) → total (uses a) xs ≤ 1

execute-Waits :
    (m : Memory) (e : ManualExecutor) (xs : List Routine) (extra : ℕ) (log : List Event)
    (r : Routine)
    → Waits xs extra log e m
    → r ≢ null
    → has r xs ≡ false
    → suc (length xs) + extra < word_mod
    → Returns (Waits (xs ++ r ∷ []) extra log) (execute e r m)
unfolding execute
execute-Waits m e xs extra log r w ne out small =
    Returns-bind (Pushed m xs r) (Waits (xs ++ r ∷ []) extra log) (push e.tasks_queue r m) _
      (push-append m e.tasks_queue xs r w.holds ne out (omega (arith, small)))
      (λ q g p. record {
        holds = p.0;
        size = omega (arith, w.size, length-append xs (r ∷ []), small);
        logged = w.logged;
      })

module _ (spawns : Routine → List Routine) (on_heap : Routine → Bool) where
  -- The routines that the routines `rs` submit, in order.
  abbrev pub spawned : List Routine → List Routine
  spawned [] = []
  spawned (r ∷ rs) = spawns r ++ spawned rs

  -- What running the routines `rs` logs: each runs, and then is discarded if it is on the heap.
  abbrev pub events : List Routine → List Event
  events [] = []
  events (r ∷ rs) = ran r ∷ (if on_heap r then discarded r ∷ events rs else events rs)

  pub events-cons :
      (r : Routine) (rs : List Routine) (log : List Event)
      → (log ++ events (r ∷ [])) ++ events rs ≡ log ++ events (r ∷ rs)
  events-cons r rs log = elim (Bool-cases (on_heap r)) [
    | inl heap ↦ rw (heap, append_assoc)
    | inr other ↦ rw (other, append_assoc)
  ]

module _ (spawns : Routine → List Routine) (on_heap : Routine → Bool) (uses : Routine → Routine → ℕ)
    (once : (a r : Routine) → bit (a == r) + total (uses a) (spawns r) ≤ uses a r) where
  self_used : (a : Routine) → 1 ≤ uses a a
  self_used a = omega (arith, once a a, ap bit (==_refl a))

  -- A routine that is not used any more does not wait.
  unused : (a : Routine) (xs : List Routine) → total (uses a) xs ≡ 0 → has a xs ≡ false
  unused a [] z = refl
  unused a (x ∷ xs) z = ground (arith, unused a xs (omega (arith, z)), once a x, z)

  execute_all-Waits :
      (rs : List Routine) (m : Memory) (e : ManualExecutor) (xs : List Routine) (extra : ℕ)
      (log : List Event)
      → Waits xs extra log e m
      → has null rs ≡ false
      → IsOnce uses (xs ++ rs)
      → length xs + length rs + extra < word_mod
      → Returns (Waits (xs ++ rs) extra log) (execute_all e rs m)
  unfolding execute_all
  execute_all-Waits [] m e xs extra log w ne one small =
      subst (λ ys. Waits ys extra log e m) (sym (append-nil xs)) w
  execute_all-Waits (r ∷ rs) m e xs extra log w ne one small =
      let fresh : total (uses r) xs ≡ 0 =
        omega (arith, one r, total-append (uses r) xs (r ∷ rs), self_used r) in
      subst (λ ys. Returns (Waits ys extra log) (execute_all e (r ∷ rs) m))
        (append_assoc xs (r ∷ []) rs)
        (Returns-bind (Waits (xs ++ r ∷ []) extra log) (Waits ((xs ++ r ∷ []) ++ rs) extra log)
          (execute e r m) _
          (execute-Waits m e xs extra log r w (ground (arith, ne)) (unused r xs fresh)
            (omega (arith, small)))
          (λ e' g w'.
            execute_all-Waits rs g e' (xs ++ r ∷ []) extra log w' (ground (arith, ne))
              (subst (IsOnce uses) (sym (append_assoc xs (r ∷ []) rs)) one)
              (omega (arith, small, length-append xs (r ∷ [])))))

  run_routine-Waits :
      (r : Routine) (m : Memory) (e : ManualExecutor) (xs : List Routine) (extra : ℕ)
      (log : List Event)
      → Waits xs extra log e m
      → r ≢ null
      → has null (spawns r) ≡ false
      → IsOnce uses (xs ++ spawns r)
      → length xs + length (spawns r) + extra < word_mod
      → Returns
          (Waits (xs ++ spawns r) extra (log ++ events spawns on_heap (r ∷ [])))
          (run_routine spawns on_heap r e m)
  unfolding run_routine
  run_routine-Waits r m e xs extra log w ne safe one small = rw (==_of_ne r null ne) (
      Returns-bind (Waits (xs ++ spawns r) extra (log ++ ran r ∷ []))
        (Waits (xs ++ spawns r) extra (log ++ events spawns on_heap (r ∷ [])))
        (execute_all (record e { log = e.log ++ ran r ∷ [] }) (spawns r) m) _
        (execute_all-Waits (spawns r) m (record e { log = e.log ++ ran r ∷ [] }) xs extra
          (log ++ ran r ∷ []) (record { holds = w.holds; size = w.size; logged = rw w.logged refl })
          safe one small)
        (λ e' g w'. elim (Bool-cases (on_heap r)) [
          | inl heap ↦ rw heap (record {
            holds = w'.holds;
            size = w'.size;
            logged = rw w'.logged (append_assoc log (ran r ∷ []) (discarded r ∷ []));
          })
          | inr other ↦ rw other w'
        ]))

  -- One round takes the oldest routine and puts those that it submits behind the others.
  pub run_loop-one :
      (m : Memory) (e : ManualExecutor) (r : Routine) (rest : List Routine) (log : List Event)
      → Waits (r ∷ rest) 0 log e m
      → r ≢ null
      → has null (spawns r) ≡ false
      → IsOnce uses (rest ++ spawns r)
      → suc (length rest + length (spawns r)) < word_mod
      → Returns
          (Waits (rest ++ spawns r) 1 (log ++ events spawns on_heap (r ∷ [])))
          (run_loop spawns on_heap 1 e m)
  unfolding run_loop
  run_loop-one m e r rest log w ne safe one small =
      Returns-bind (Popped m e.tasks_queue (r ∷ rest))
        (Waits (rest ++ spawns r) 1 (log ++ events spawns on_heap (r ∷ [])))
        (try_pop e.tasks_queue m) _
        (try_pop-Popped m e.tasks_queue (r ∷ rest) w.holds (omega (arith, small)))
        (λ p g popped.
          Returns-bind (Waits (rest ++ spawns r) 1 (log ++ events spawns on_heap (r ∷ [])))
            (Waits (rest ++ spawns r) 1 (log ++ events spawns on_heap (r ∷ [])))
            (run_routine spawns on_heap p.0 (record e { tasks_queue = p.1 }) g) _
            (subst
              (λ x.
                Returns (Waits (rest ++ spawns r) 1 (log ++ events spawns on_heap (r ∷ [])))
                  (run_routine spawns on_heap x (record e { tasks_queue = p.1 }) g))
              (sym popped.0)
              (run_routine-Waits r g (record e { tasks_queue = p.1 }) rest 1 log
                (record {
                  holds = subst (λ h. Holds h p.1 rest) (sym popped.2) popped.1;
                  size = omega (arith, w.size);
                  logged = w.logged;
                })
                ne safe one (omega (arith, small))))
            (λ e' h w'. w'))
