-- ===== src/Channels/Channel/Ring.antt =====
-- channels/channel.hpp: the ring of the buffered values.
use concurrency_library.Common.{
  ℕ, zero, suc, ◌+◌, ◌%◌, ◌<◌, ◌≡◌, ◌≢◌, refl, sym, ap, ap₂, ◌∙◌, List, [], ◌∷◌, ◌++◌, length,
  update, ==_refl, ==_of_ne, arith,
}

-- The `n` values from position `head` on, the oldest first.
unfoldable pub contents : (ℕ → ℕ) → (capacity head n : ℕ) → List ℕ
contents buffer capacity head zero = []
contents buffer capacity head (suc n) =
    buffer (head % capacity) ∷ contents buffer capacity (suc head) n

pub mod_apart : (x y c : ℕ) → x < y → y < x + c → x % c ≢ y % c
mod_apart x y c lo hi e = grind arith

pub contents-update :
    (buffer : ℕ → ℕ) (capacity head n at v : ℕ)
    → head + n < suc at
    → at < head + capacity
    → contents (update buffer (at % capacity) v) capacity head n ≡ contents buffer capacity head n
unfolding contents
contents-update buffer capacity head zero at v lo hi = refl
contents-update buffer capacity head (suc n) at v lo hi =
    ap₂ ◌∷◌
      (rw
        (==_of_ne (at % capacity) (head % capacity)
          (λ e. mod_apart head at capacity (omega arith) hi (sym e)))
        refl)
      (contents-update buffer capacity (suc head) n at v (omega arith) (omega arith))

pub contents-put :
    (buffer : ℕ → ℕ) (capacity head n at v : ℕ)
    → at ≡ head + n
    → n < capacity
    → contents (update buffer (at % capacity) v) capacity head (suc n)
      ≡ contents buffer capacity head n ++ v ∷ []
unfolding contents
contents-put buffer capacity head zero at v e h =
    ap (λ x. x ∷ [])
      (rw (ap (λ x. x % capacity) (e ∙ plus_zero)) (rw (==_refl (head % capacity)) refl))
  where
    plus_zero : head + 0 ≡ head
    plus_zero = omega arith
contents-put buffer capacity head (suc n) at v e h =
    ap₂ ◌∷◌
      (rw
        (==_of_ne (at % capacity) (head % capacity)
          (λ same. mod_apart head at capacity (omega (arith, e)) (omega (arith, e)) (sym same)))
        refl)
      (contents-put buffer capacity (suc head) n at v (omega (arith, e)) (omega arith))

pub length-contents :
    (buffer : ℕ → ℕ) (capacity head n : ℕ) → length (contents buffer capacity head n) ≡ n
unfolding contents
length-contents buffer capacity head zero = refl
length-contents buffer capacity head (suc n) = ap suc (length-contents buffer capacity (suc head) n)
