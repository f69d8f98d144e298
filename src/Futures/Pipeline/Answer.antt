-- ===== src/Futures/Pipeline/Answer.antt =====
-- futures/future.hpp and futures/promise.hpp: what the last future of a chain gets.
use concurrency_library.Common.{
  suc, ◌+◌, ◌≡◌, ◌≢◌, refl, sym, ap, ap₂, subst, ◌∙◌, none, some, List, [], ◌∷◌, arith,
}
use concurrency_library.Futures.Result.{Result}
use concurrency_library.Futures.Pipeline.{
  invoke, value_is_set, Task, Pipeline, set, Step, promise_set, client_attach, run_task, Reach,
  here, next, feed, answer,
}
use concurrency_library.Futures.Pipeline.Invariant.{
  Phase, unset, finished, busy, set-Phase, attach-Phase,
}

none-some : {A : Type 0} {a : A} → none ≢ some a
none-some = cc

nil-cons : {A : Type 0} {a : A} {xs : List A} → ◌≢◌ {A = List A} [] (a ∷ xs)
nil-cons = cc

some_injective : {A : Type 0} {a b : A} → some a ≡ some b → a ≡ b
some_injective e = cc

first_injective : {A : Type 0} {a b : A} {xs ys : List A} → a ∷ xs ≡ b ∷ ys → a ≡ b
first_injective e = cc

rest_injective : {A : Type 0} {a b : A} {xs ys : List A} → a ∷ xs ≡ b ∷ ys → xs ≡ ys
rest_injective e = cc

module _ {T : Type 0} where
  promise_set-Phase :
      (p : Pipeline T) (r : Result T)
      → p.given ≡ none
      → Phase p
      → Phase (set T (record p { given = some r }) 0 r)
  unfolding answer
  promise_set-Phase p r new (unset given none_left h) =
      set-Phase (record p { given = some r }) 0 r r refl none_left (omega arith) refl
        (record { below = h.below; above = h.above })
  promise_set-Phase p r new (finished r' given none_left last known h) =
      absurd (none-some (sym new ∙ given))
  promise_set-Phase p r new (busy r' t given one_left lt stage known h) =
      absurd (none-some (sym new ∙ given))

  run_task-Phase :
      (p : Pipeline T) (t : Task T) (ts : List (Task T)) (v : Result T)
      → p.tasks ≡ t ∷ ts
      → invoke T t.stage t.result ≡ some v
      → Phase p
      → Phase (set T (record p { tasks = ts }) (t.place + 1) v)
  unfolding answer
  run_task-Phase p t ts v e done (unset given none_left h) = absurd (nil-cons (sym none_left ∙ e))
  run_task-Phase p t ts v e done (finished r given none_left last known h) =
      absurd (nil-cons (sym none_left ∙ e))
  run_task-Phase p t ts v e done (busy r t' given one_left lt stage known h) =
      let same : t' ≡ t = first_injective (sym one_left ∙ e) in
      subst (λ k. Phase (set T (record p { tasks = ts }) k v)) (ap (λ t. t.place + 1) same)
        (set-Phase (record p { tasks = ts }) (t'.place + 1) r v given
          (sym (rest_injective (sym one_left ∙ e))) (omega (arith, lt)) (step_known t' same refl)
          (record { below = h.below; above = h.above }))
    where
      step_known : (u : Task T) → u ≡ t → u ≡ t' → answer T p.stages r (u.place + 1) ≡ some v
      step_known u same own =
          ap (answer T p.stages r) next_place
          ∙ ap₂ (feed T) (ap (λ w. p.stages w.place) own ∙ stage ∙ ap (λ w. some w.stage) (sym own))
              (ap (λ w. answer T p.stages r w.place) own
                ∙ known
                ∙ ap (λ w. some w.result) (sym own))
          ∙ subst (λ w. invoke T w.stage w.result ≡ some v) (sym same) done
        where
          next_place : u.place + 1 ≡ suc u.place
          next_place = omega arith

  Step-Phase : {p q : Pipeline T} → Step T p q → Phase p → Phase q
  Step-Phase {p} (promise_set r new) h = promise_set-Phase p r new h
  Step-Phase {p} (client_attach s) h = attach-Phase p s h
  Step-Phase {p} (run_task {t} {ts} {r} e done) h = run_task-Phase p t ts r e done h

  Reach-Phase : {p : Pipeline T} → Reach T p → Phase p
  Reach-Phase here =
      unset refl refl
        (record { below = λ k lo hi. absurd (omega (arith, hi)); above = λ k lo hi. refl })
  Reach-Phase (next r st) = Step-Phase st (Reach-Phase r)

  finished_answer :
      (p : Pipeline T) (r : Result T)
      → Phase p
      → p.given ≡ some r
      → p.tasks ≡ []
      → (p.word p.made ≡ value_is_set) × (answer T p.stages r p.made ≡ some (p.value p.made))
  finished_answer p r (unset given none_left h) e nil = absurd (none-some (sym given ∙ e))
  finished_answer p r (finished r' given none_left last known h) e nil =
      (last, ap (λ k. answer T p.stages k p.made) (some_injective (sym e ∙ given)) ∙ known)
  finished_answer p r (busy r' t given one_left lt stage known h) e nil =
      absurd (nil-cons (sym nil ∙ one_left))

  -- In a chain of futures that grows by `Then` and `Recover` while its promise is set and its tasks
  -- run, in every order of these, once the promise is set to a result and no task waits, the last
  -- future has a value, and it is what the callbacks make of that result one after the other, in
  -- the order of the futures.
  pub last_gets_answer :
      {p : Pipeline T} (r : Result T)
      → Reach T p
      → p.given ≡ some r
      → p.tasks ≡ []
      → (p.word p.made ≡ value_is_set) × (answer T p.stages r p.made ≡ some (p.value p.made))
  last_gets_answer {p} r run e nil = finished_answer p r (Reach-Phase run) e nil
