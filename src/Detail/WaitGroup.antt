-- ===== src/Detail/WaitGroup.antt =====
-- detail/waitgroup.hpp: a wait group is its count, a 64-bit word. The wake-ups of those that wait are
-- left out: `Wait` returns when the count is 0.
use concurrency_library.Common.{ℕ, Bool, ◌==◌, add64, dec64}

abbrev pub WaitGroup : Type 0
WaitGroup = ℕ

abbrev pub empty : WaitGroup
empty = 0

abbrev pub add : WaitGroup → ℕ → WaitGroup
add count n = add64 count n

abbrev pub done : WaitGroup → WaitGroup
done count = dec64 count

-- Whether `Wait` returns.
abbrev pub wait_returns : WaitGroup → Bool
wait_returns count = count == 0

abbrev pub all_done : WaitGroup → WaitGroup
all_done count = 0
