-- ===== src/Channels/Select/Chosen.antt =====
-- channels/select.hpp: what `TrySelect` chooses, while no consumer waits at its channels.
use concurrency_library.Common.{
  ℕ, suc, ◌<◌, ◌≡◌, ◌≢◌, refl, sym, ap, subst, ◌∙◌, fun_ext, true, false, Option, none, some, List,
  [], ◌∷◌, length, has, update, ◌||◌, ==_refl, ==_of_ne, ℕ_discrete, word_mod, arith,
}
use concurrency_library.Intrusive.Memory.{Ptr, Memory, Returns, Returns-bind}
use concurrency_library.Channels.Channel.{Channel, try_receive}
use concurrency_library.Channels.Channel.Fifo.{Valid, pending, Took, TookIfAny}
use concurrency_library.Channels.Channel.Taking.{try_receive-takes}
use concurrency_library.Channels.Select.{return_or, try_select}

-- A channel that can be received from: its producers `ws` wait, and it is not used up.
pub record Ready (m : Memory) (c : Channel) (ws : List Ptr) : Type 0 where
  pub valid : Valid m c ws
  pub positive : 0 < c.capacity
  pub few : length ws < word_mod
  pub small : suc c.tail < word_mod

-- Nothing is chosen if nothing is pending at any of the channels, and else the oldest value of one
-- of them, the other channels staying as they are.
abbrev pub Chosen :
    List ℕ → (ℕ → Channel) → (ℕ → List Ptr) → Option (ℕ × ℕ) × (ℕ → Channel) → Memory → Type 0
Chosen order cs ws (none, cs') g =
    ((i : ℕ) → has i order ≡ true → pending (cs i) (ws i) ≡ []) × (cs' ≡ cs)
Chosen order cs ws (some (i, v), cs') g =
    (has i order ≡ true) × Took (cs i) (ws i) (v, cs' i) g × ((j : ℕ) → i ≢ j → cs' j ≡ cs j)

Returns-weaken :
    {A : Type 0} {P Q : A → Memory → Type 0} (r : Option (A × Memory))
    → ((a : A) (g : Memory) → P a g → Q a g)
    → Returns P r
    → Returns Q r
Returns-weaken none f h = h
Returns-weaken (some (a, g)) f h = f a g h

module _ (m : Memory) (cs : ℕ → Channel) (ws : ℕ → List Ptr) where
  skipped :
      (i : ℕ) (is : List ℕ) (r : Option (ℕ × ℕ) × (ℕ → Channel)) (g : Memory)
      → pending (cs i) (ws i) ≡ []
      → Chosen is cs ws r g
      → Chosen (i ∷ is) cs ws r g
  skipped i is (none, cs') g nil h = (empty, h.1)
    where
      empty : (j : ℕ) → has j (i ∷ is) ≡ true → pending (cs j) (ws j) ≡ []
      empty j on = elim (ℕ_discrete j i) [
        | yes e ↦ rw e nil
        | no ne ↦ h.0 j (sym (ap (λ b. b || has j is) (==_of_ne j i ne)) ∙ on)
      ]
  skipped i is (some (k, v), cs') g nil h = (ground (arith, h.0), h.1, h.2)

  go_on :
      (i : ℕ) (is : List ℕ)
      → Returns (Chosen is cs ws) (try_select is cs m)
      → (out : Option ℕ) (c : Channel) (g : Memory) → TookIfAny m (cs i) (ws i) (out, c) g
      → Returns (Chosen (i ∷ is) cs ws) (return_or i cs (try_select is) (out, c) g)
  go_on i is rest none c g (nil, same, kept) =
      rw (kept, unchanged) (Returns-weaken (try_select is cs m) (λ r k. skipped i is r k nil) rest)
    where
      unchanged : update cs i c ≡ cs
      unchanged = fun_ext (λ j. elim (ℕ_discrete i j) [
        | yes e ↦ rw (sym e) (rw (==_refl i) same)
        | no ne ↦ rw (==_of_ne i j ne) refl
      ])
  go_on i is rest (some v) c g took = (
    rw (==_refl i) refl,
    subst (λ k. Took (cs i) (ws i) (v, k) g) (sym updated) took,
    λ j ne. rw (==_of_ne i j ne) refl,
  )
    where
      updated : update cs i c i ≡ c
      updated = rw (==_refl i) refl

  -- While no consumer waits at the channels, their capacities are not 0, and short of 2^64
  -- producers and values, `TrySelect` makes no fault: it gives nothing, and changes nothing, only
  -- if nothing is pending at any of the channels, and else it takes the oldest pending value of one
  -- of them and leaves the others as they are.
  pub try_select-Chosen :
      (order : List ℕ)
      → ((i : ℕ) → has i order ≡ true → Ready m (cs i) (ws i))
      → Returns (Chosen order cs ws) (try_select order cs m)
  unfolding try_select
  try_select-Chosen [] ready = ((λ i on. absurd (false-ne on)), refl)
    where
      false-ne : false ≢ true
      false-ne = cc
  try_select-Chosen (i ∷ is) ready =
      let at = ready i (rw (==_refl i) refl) in
      let rest = try_select-Chosen is (λ j on. ready j (ground (arith, on))) in
      Returns-bind (TookIfAny m (cs i) (ws i)) (Chosen (i ∷ is) cs ws) (try_receive (cs i) m)
        (return_or i cs (try_select is))
        (try_receive-takes m (cs i) (ws i) at.valid at.positive at.few at.small)
        (λ (out, c) g took. go_on i is rest out c g took)
