-- ===== src/Channels/Select/Tests.antt =====
-- Two channels, of which the second holds a value, and the draw that exchanges them.
use concurrency_library.Common.{
  ℕ, ◌≤◌, ◌≡◌, refl, true, List, [], ◌∷◌, has, ◌==◌, if◌then◌else◌, arith, inr,
}
use concurrency_library.Intrusive.Memory.{Ptr, Memory, Returns}
use concurrency_library.Channels.Channel.{Channel, make}
use concurrency_library.Channels.Select.{initial, generate_random_permutation, try_select, permute}
use concurrency_library.Channels.Select.Shuffled.{Permuted, generate_random_permutation-Permuted}
use concurrency_library.Channels.Select.Chosen.{Ready, Chosen, try_select-Chosen}

abbrev memory : Memory
memory = record { next = λ _. 0; prev = λ _. 0 }

abbrev channels : ℕ → Channel
unfolding make
channels i = record (make 2) { buffer = λ _. 5; tail = if i == 0 then 0 else 1 }

abbrev nobody : ℕ → List Ptr
nobody _ = []

channels-Ready : (i : ℕ) → has i (0 ∷ 1 ∷ []) ≡ true → Ready memory (channels i) (nobody i)
unfolding make
channels-Ready i on = record {
  valid = record {
    none_waits = refl;
    waiting = record { chain = refl; distinct = tt; back = refl; count = refl };
    ordered = omega arith;
    fits = ground arith;
    full = inr refl;
    small = ground arith;
  };
  positive = omega arith;
  few = omega arith;
  small = ground arith;
}

try_select-Chosen_example :
    Returns (Chosen (0 ∷ 1 ∷ []) channels nobody) (try_select (0 ∷ 1 ∷ []) channels memory)
try_select-Chosen_example = try_select-Chosen memory channels nobody (0 ∷ 1 ∷ []) channels-Ready

least : (j : ℕ) → 0 ≤ j
least j = omega arith

generate_random_permutation-Permuted_example :
    Permuted 2 (generate_random_permutation (λ _. 0) 2 initial)
generate_random_permutation-Permuted_example =
    generate_random_permutation-Permuted (λ _. 0) 2 least (omega arith)

-- After that draw the awaiter at place 0 takes itself to be at place 1.
wrong_place :
    let s = generate_random_permutation (λ _. 0) 2 initial in
    (◌≡◌ {A = ℕ} (s.first 0) 1) × (◌≡◌ {A = ℕ} (s.index (s.first 0)) 1)
unfolding generate_random_permutation permute
wrong_place = (refl, refl)
