-- ===== src/Channels/Select.antt =====
-- channels/select.hpp: the choice among several channels. The channels and their awaiters are known
-- by their place in the call, from 0 on. The random numbers are a parameter.
pub mod Shuffled
pub mod Chosen
mod Tests
use concurrency_library.Common.{
  ℕ, zero, suc, ◌-◌, Option, none, some, List, [], ◌∷◌, update, ◌==◌, if◌then◌else◌,
}
use concurrency_library.Intrusive.Memory.{Cmd, pure, ◌>>=◌}
use concurrency_library.Channels.Channel.{Channel, try_receive}

-- `channels`, the first components of `awaiters`, and the field `index_` of each awaiter.
pub record Arrays : Type 0 where
  pub channels : ℕ → ℕ
  pub first : ℕ → ℕ
  pub index : ℕ → ℕ

-- What `GetChannelArray` and `GetAwaiters` make.
abbrev pub initial : Arrays
initial = record { channels = λ i. i; first = λ i. i; index = λ i. i }

-- `std::swap(f[i], f[j])`
abbrev pub swap : (ℕ → ℕ) → ℕ → ℕ → ℕ → ℕ
swap f i j = update (update f i (f j)) j (f i)

-- The body of the loop of `GenerateRandomPermutation`, for place `i` and drawn place `j`.
abbrev pub exchange : ℕ → ℕ → Arrays → Arrays
exchange i j s = record {
  channels = swap s.channels i j;
  first = swap s.first i j;
  index = update s.index (swap s.first i j i) i;
}

-- The loop from place `i` down to 1; `draw i` is the number drawn at place `i`.
unfoldable pub permute : (ℕ → ℕ) → ℕ → Arrays → Arrays
permute draw zero s = s
permute draw (suc i) s = permute draw i (exchange (suc i) (draw (suc i)) s)

unfoldable pub generate_random_permutation : (ℕ → ℕ) → ℕ → Arrays → Arrays
unfolding permute
generate_random_permutation draw args_count s = permute draw (args_count - 1) s

-- A round of the loop of `TrySelect`: it returns with a value, or goes on.
abbrev pub return_or :
    ℕ
    → (ℕ → Channel)
    → ((ℕ → Channel) → Cmd (Option (ℕ × ℕ) × (ℕ → Channel)))
    → Option ℕ × Channel
    → Cmd (Option (ℕ × ℕ) × (ℕ → Channel))
return_or i cs rest (some v, c) = pure (some (i, v), update cs i c)
return_or i cs rest (none, c) = rest (update cs i c)

-- The loop of `TrySelect` over the shuffled channels `order`: the channel that gave a value, and it.
unfoldable pub try_select : List ℕ → (ℕ → Channel) → Cmd (Option (ℕ × ℕ) × (ℕ → Channel))
try_select [] cs = pure (none, cs)
try_select (i ∷ is) cs = try_receive (cs i) >>= return_or i cs (try_select is)
