-- ===== src/LockFree/RingQueue/Contents.antt =====
-- lockfree/ring_queue.hpp refines a bounded queue, while one thread uses it.
use concurrency_library.Common.{
  ℕ, zero, suc, ◌+◌, ◌-◌, ◌%◌, ◌<◌, ◌≤◌, ◌≡◌, ◌≢◌, refl, sym, ap, ◌∙◌, true, [], ◌∷◌, ◌++◌, update,
  min, take, drop, length, ◌==◌, ==_of_ne, inc64, add64, sub64, word_mod, arith, dec_lt, Bool-cases,
  ==_refl, ◌⊎◌, inl, inr,
}
use native.Mathlib.Nat.{mod-add-mod, mod-eq_of_lt, mod-eq-sub-mod, mod-lt, add-zero}
use concurrency_library.LockFree.Bounded
use concurrency_library.LockFree.RingQueue.{
  Item, RingQueue, next_pos, try_push, try_pop, grab, copy, window, IsValid, contents,
}

-- A remainder and a step below the modulus.
mod_add_below :
    (m r d : ℕ)
    → r < m
    → d < m
    → ((r + d < m) × ((r + d) % m ≡ r + d)) ⊎ ((m ≤ r + d) × ((r + d) % m ≡ r + d - m))
mod_add_below m r d hr hd = elim (dec_lt (r + d) m) [
  | yes p ↦ inl (p, mod-eq_of_lt p)
  | no p ↦ inr (
    omega arith,
    mod-eq-sub-mod {n = r + d} {m = m} (omega arith)
        ∙ mod-eq_of_lt {n = r + d - m} {m = m} (omega arith),
  )
]

-- Fewer than `m` steps on from `a` do not come back to the same remainder.
pub add-mod-ne : (m a d : ℕ) → 0 < d → d < m → (a + d) % m ≢ a % m
add-mod-ne m a d pos lt e =
    absurd (omega (arith, mod-add-mod a m d, mod_add_below m (a % m) d (mod-lt a (omega arith)) lt))

pub next_pos-mod : (c a : ℕ) → next_pos c (a % (c + 1)) ≡ (a + 1) % (c + 1)
next_pos-mod c a = elim (dec_lt 0 c) [
  | yes p ↦ ground (
    arith,
    mod-add-mod a (c + 1) 1,
    mod_add_below (c + 1) (a % (c + 1)) 1 (mod-lt a (omega arith)) (omega arith),
  )
  | no p ↦ let e : c ≡ 0 = omega arith in rw e (ground arith)
]

module _ (capacity : ℕ) where
  copy-window :
      (buffer : ℕ → Item) (from count : ℕ)
      → copy capacity buffer (from % (capacity + 1)) count ≡ window capacity buffer from count
  unfolding copy
  copy-window buffer from zero = refl
  copy-window buffer from (suc count) =
      rw (next_pos-mod capacity from, copy-window buffer (from + 1) count)

  pub length-window :
      (buffer : ℕ → Item) (from count : ℕ) → length (window capacity buffer from count) ≡ count
  length-window buffer from zero = refl
  length-window buffer from (suc count) = ap suc (length-window buffer (from + 1) count)

  -- A write outside a window leaves it alone.
  window-update :
      (buffer : ℕ → Item) (from count pos : ℕ) (item : Item)
      → ((d : ℕ) → d < count → (from + d) % (capacity + 1) ≢ pos)
      → window capacity (update buffer pos item) from count ≡ window capacity buffer from count
  window-update buffer from zero pos item out = refl
  window-update buffer from (suc count) pos item out =
      let ne : pos ≢ from % (capacity + 1) =
        λ e. out 0 (omega arith) (rw (add-zero from) (sym e)) in
      rw (
        ==_of_ne pos (from % (capacity + 1)) ne,
        window-update buffer (from + 1) count pos item λ d h.
            let e : from + 1 + d ≡ from + suc d = omega arith in rw e (out (suc d) (omega arith)),
      )

  pub window_snoc :
      (buffer : ℕ → Item) (from count : ℕ)
      → window capacity buffer from (suc count)
        ≡ window capacity buffer from count ++ buffer ((from + count) % (capacity + 1)) ∷ []
  window_snoc buffer from zero = rw (add-zero from)
  window_snoc buffer from (suc count) =
      let e : from + 1 + count ≡ from + suc count = omega arith in
      rw (window_snoc buffer (from + 1) count, e)

  window-take :
      (buffer : ℕ → Item) (from count k : ℕ)
      → take k (window capacity buffer from count) ≡ window capacity buffer from (min count k)
  window-take buffer from zero zero = refl
  window-take buffer from zero (suc k) = let e : min 0 (suc k) ≡ 0 = omega arith in rw e
  window-take buffer from (suc count) zero = let e : min (suc count) 0 ≡ 0 = omega arith in rw e
  window-take buffer from (suc count) (suc k) =
      let e : min (suc count) (suc k) ≡ suc (min count k) = omega arith in
      rw (e, window-take buffer (from + 1) count k)

  window-drop :
      (buffer : ℕ → Item) (from count k : ℕ)
      → k ≤ count
      → drop k (window capacity buffer from count) ≡ window capacity buffer (from + k) (count - k)
  window-drop buffer from count zero h =
      let e : count - 0 ≡ count = omega arith in rw (add-zero from, e)
  window-drop buffer from zero (suc k) h = absurd (omega arith)
  window-drop buffer from (suc count) (suc k) h =
      let e : from + 1 + k ≡ from + suc k = omega arith in
      let d : suc count - suc k ≡ count - k = omega arith in
      rw (window-drop buffer (from + 1) count k (omega arith), e, d)

  module _ (q : RingQueue) (v : IsValid capacity q) where
    open q use {buffer, head, tail}

    sub64-tail-head : sub64 tail head ≡ tail - head
    sub64-tail-head = omega (arith, v.order, v.small)

    length-contents : length (contents capacity q) ≡ tail - head
    length-contents = length-window buffer head (tail - head)

    contents-add :
        (item : Item)
        → tail + 1 < word_mod
        → tail - head ≢ capacity
        → window capacity (update buffer (tail % (capacity + 1)) item) head (inc64 tail - head)
          ≡ contents capacity q ++ item ∷ []
    contents-add item small more =
        let grown : inc64 tail - head ≡ suc (tail - head) = omega (arith, v.order) in
        let end : head + (tail - head) ≡ tail = omega (arith, v.order) in
        rw (
          grown,
          window_snoc (update buffer (tail % (capacity + 1)) item) head (tail - head),
          end,
          ==_refl (tail % (capacity + 1)),
          window-update buffer head (tail - head) (tail % (capacity + 1)) item (λ d h e.
              let j : head + d + (tail - (head + d)) ≡ tail = omega arith in
              add-mod-ne (capacity + 1) (head + d) (tail - (head + d)) (omega arith)
                (omega (arith, v.room)) (rw j (sym e))),
        )

    -- While one thread uses the ring and its counters are valid: a push, while fewer than 2^64 - 1
    -- were made, is that of the bounded queue of its contents, and keeps the counters valid.
    pub try_push_refines :
        (item : Item)
        → tail + 1 < word_mod
        → let (done, q') = try_push capacity q item in
          ((done, contents capacity q') ≡ Bounded.push capacity (contents capacity q) item)
          × IsValid capacity q'
    unfolding try_push
    try_push_refines item small =
        rw (sub64-tail-head, length-contents)
          (elim (Bool-cases (tail - head == capacity)) [
            | inl full ↦ rw full (refl, v)
            | inr more ↦ rw more (
              ap (λ xs. (true, xs)) (contents-add item small (ground arith)),
              record {
                order = ground (arith, v.order);
                room = ground (arith, v.order, v.room);
                small = ground arith;
              },
            )
          ])

    -- While one thread uses the ring and its counters are valid: a pop is that of the bounded queue
    -- of its contents, and keeps the counters valid.
    pub try_pop_refines :
        let (item, q') = try_pop capacity q in
        ((item, contents capacity q') ≡ Bounded.pop (contents capacity q)) × IsValid capacity q'
    unfolding try_pop
    try_pop_refines = elim (Bool-cases (head == tail)) [
      | inl none_left ↦ let e : tail - head ≡ 0 = ground arith in rw (none_left, e) (refl, v)
      | inr more ↦
          let e : tail - head ≡ suc (tail - inc64 head) = ground (arith, v.order, v.small) in
          let f : inc64 head ≡ head + 1 = ground (arith, v.order, v.small) in
          rw (more, e, f)
            (
              refl,
              record {
                order = ground (arith, v.order);
                room = omega (arith, v.room);
                small = v.small;
              },
            )
    ]

    -- While one thread uses the ring and its counters are valid: a grab takes the oldest items, at
    -- most `size`, in order, leaves the others, and keeps the counters valid.
    pub grab_refines :
        (size : ℕ)
        → let (items, q') = grab capacity q size in
          (items ≡ take size (contents capacity q))
          × (contents capacity q' ≡ drop (min (tail - head) size) (contents capacity q))
          × IsValid capacity q'
    unfolding grab
    grab_refines size =
        let f : add64 head (min (tail - head) size) ≡ head + min (tail - head) size =
          omega (arith, v.order, v.small) in
        let g : tail - (head + min (tail - head) size) ≡ (tail - head) - min (tail - head) size =
          omega (arith, v.order, v.small) in
        rw (sub64-tail-head, f)
          (
            copy-window buffer head (min (tail - head) size)
                ∙ sym (window-take buffer head (tail - head) size),
            rw (g) (
                sym (window-drop buffer head (tail - head) (min (tail - head) size) (omega arith))),
            record {
              order = omega (arith, v.order);
              room = omega (arith, v.room);
              small = v.small;
            },
          )
