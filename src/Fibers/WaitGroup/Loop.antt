-- ===== src/Fibers/WaitGroup/Loop.antt =====
-- fibers/sync/waitgroup.hpp: `CreateQueueFromStack` and the loop of `ResumeAwaiters`, over the links
-- `next` of the awaiters, with 0 for the null pointer. `CreateQueueFromStack` leaves the link of the
-- first awaiter of the stack as it is.
use concurrency_library.Common.{
  ℕ, zero, suc, ◌≡◌, ◌≢◌, refl, sym, ap, ◌∙◌, true, false, Option, none, some, List, [], ◌∷◌,
  length, has, Distinct, update, ◌==◌, if◌then◌else◌, ==_refl, ==_of_eq, ==_of_ne, Bool-cases, inl,
  inr, arith,
}
use concurrency_library.Intrusive.Memory.Chain.{Chain, Chain-update, Chain-ne_null}

-- The loop of `CreateQueueFromStack`: the head of the queue, and the links.
unfoldable pub reverse_links : ℕ → (ℕ → ℕ) → ℕ → ℕ → Option (ℕ × (ℕ → ℕ))
reverse_links zero next queue_head next_queue_head =
    if next_queue_head == 0 then some (queue_head, next) else none
reverse_links (suc fuel) next queue_head next_queue_head =
    let rest =
      reverse_links fuel (update next next_queue_head queue_head) next_queue_head
        (next next_queue_head) in
    if next_queue_head == 0 then some (queue_head, next) else rest

unfoldable pub create_queue_from_stack : ℕ → (ℕ → ℕ) → ℕ → Option (ℕ × (ℕ → ℕ))
unfolding reverse_links
create_queue_from_stack fuel next stack = reverse_links fuel next stack (next stack)

abbrev before : ℕ → Option (List ℕ) → Option (List ℕ)
before a none = none
before a (some xs) = some (a ∷ xs)

-- The awaiters that the loop of `ResumeAwaiters` resumes, in order; `none` if it does not end.
unfoldable pub resume_loop : ℕ → (ℕ → ℕ) → ℕ → Option (List ℕ)
resume_loop zero next queue = if queue == 0 then some [] else none
resume_loop (suc fuel) next queue =
    let rest = resume_loop fuel next (next queue) in
    if queue == 0 then some [] else before queue rest

-- From an awaiter of `xs` the links lead to one of `xs`.
abbrev Closed : List ℕ → (ℕ → ℕ) → Type 0
Closed xs next = (a : ℕ) → has a xs ≡ true → has (next a) xs ≡ true

loop_lem :
    (xs : List ℕ) (next : ℕ → ℕ)
    → Closed xs next
    → has 0 xs ≡ false
    → (fuel a : ℕ) → has a xs ≡ true
    → resume_loop fuel next a ≡ none
unfolding resume_loop
loop_lem xs next closed out zero a on = rw (==_of_ne a 0 (nonnull xs a on out)) refl
  where
    nonnull : (xs : List ℕ) (a : ℕ) → has a xs ≡ true → has 0 xs ≡ false → a ≢ 0
    nonnull xs a on out e = true-ne (sym on ∙ ap (λ k. has k xs) e ∙ out)
      where
        true-ne : true ≢ false
        true-ne = cc
loop_lem xs next closed out (suc fuel) a on =
    rw
      (
        ==_of_ne a 0 (λ e. true-ne (sym on ∙ ap (λ k. has k xs) e ∙ out)),
        loop_lem xs next closed out fuel (next a) (closed a on),
      )
      refl
  where
    true-ne : true ≢ false
    true-ne = cc

-- `ys` are the awaiters whose links are still to be turned.
turned :
    (xs ys : List ℕ) (next : ℕ → ℕ) (h k : ℕ)
    → Chain next k ys
    → Distinct ys
    → has h xs ≡ true
    → ((a : ℕ) → has a ys ≡ true → has a xs ≡ true)
    → ((a : ℕ) → has a xs ≡ true → has a ys ≡ false → has (next a) xs ≡ true)
    → (q : ℕ) × (g : ℕ → ℕ) × (reverse_links (length ys) next h k ≡ some (q, g))
      × (has q xs ≡ true)
      × Closed xs g
unfolding reverse_links
turned xs [] next h k ch d on sub closed =
    (h, next, rw (==_of_eq k 0 ch) refl, on, λ a there. closed a there refl)
turned xs (y ∷ ys) next h k ch d on sub closed =
    let rest =
      turned xs ys (update next y h) y (next y) (Chain-update next (next y) ys y h ch.2 d.0) d.1
        (sub y (rw (==_refl y) refl)) (λ a there. sub a (ground (arith, there)))
        (λ a there off. ground (arith, on, there, off, closed a)) in
    (rest.0, rest.1, rw (ch.0, ==_of_ne y 0 ch.1) rest.2, rest.3, rest.4)

-- When the stack of awaiters has two or more different ones, the links that `CreateQueueFromStack`
-- leaves never lead to the null pointer, so the loop of `ResumeAwaiters` does not end, whatever
-- number of rounds it is given.
pub resume_loop-endless :
    (next : ℕ → ℕ) (a b : ℕ) (xs : List ℕ)
    → Chain next a (a ∷ b ∷ xs)
    → Distinct (a ∷ b ∷ xs)
    → (q : ℕ) × (g : ℕ → ℕ) × (create_queue_from_stack (length (b ∷ xs)) next a ≡ some (q, g))
      × ((fuel : ℕ) → resume_loop fuel g q ≡ none)
unfolding create_queue_from_stack
resume_loop-endless next a b xs ch d =
    let all = a ∷ b ∷ xs in
    let made =
      turned all (b ∷ xs) next a (next a) ch.2 d.1 (rw (==_refl a) refl)
        (λ k there. ground (arith, there)) (λ k there off. ground (arith, there, off, ch.2.0)) in
    (made.0, made.1, made.2, λ fuel. loop_lem all made.1 made.4 (no_null all ch) fuel made.0 made.3)
  where
    no_null : (ys : List ℕ) → Chain next a ys → has 0 ys ≡ false
    no_null ys h = elim (Bool-cases (has 0 ys)) [
      | inl on ↦ absurd (Chain-ne_null next a 0 ys h on refl)
      | inr off ↦ off
    ]

-- The stack has one awaiter.
pub resume_loop-one :
    (next : ℕ → ℕ) (a : ℕ)
    → Chain next a (a ∷ [])
    → (create_queue_from_stack 0 next a ≡ some (a, next)) × (resume_loop 1 next a ≡ some (a ∷ []))
unfolding create_queue_from_stack reverse_links resume_loop
resume_loop-one next a ch =
    (rw (==_of_eq (next a) 0 ch.2) refl, rw (==_of_ne a 0 ch.1, ==_of_eq (next a) 0 ch.2) refl)
