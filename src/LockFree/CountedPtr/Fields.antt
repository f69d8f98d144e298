-- ===== src/LockFree/CountedPtr/Fields.antt =====
-- `CountedPtr` of lockfree/stack.hpp and lockfree/queue.hpp: the two fields of the word.
use concurrency_library.Common.{ℕ, ◌+◌, ◌%◌, ◌^◌, ◌<◌, ◌≡◌, arith}
use concurrency_library.LockFree.CountedPtr.{
  make, get_pointer, set_pointer, get_count, increase_count,
}

-- A pointer below 2^48 and a counter below 2^16 that are packed into a word come out of it again.
pub get-make :
    (ptr count : ℕ)
    → ptr < 2 ^ 48
    → count < 2 ^ 16
    → (get_pointer (make ptr count) ≡ ptr) × (get_count (make ptr count) ≡ count)
unfolding make get_pointer get_count
get-make ptr count hp hc = omega arith

pub make-get :
    (d ptr : ℕ)
    → d < 2 ^ 64
    → ptr < 2 ^ 48
    → (make (get_pointer d) (get_count d) ≡ d) × (set_pointer d ptr ≡ make ptr (get_count d))
unfolding make get_pointer get_count set_pointer
make-get d ptr hd hp = omega arith

-- `IncreaseCount` on a word of 64 bits leaves the pointer, counts up modulo 2^16, so that the
-- largest count is followed by 0, and gives a word of 64 bits.
pub increase_count_fields :
    (d : ℕ)
    → d < 2 ^ 64
    → (get_pointer (increase_count d) ≡ get_pointer d)
      × (get_count (increase_count d) ≡ (get_count d + 1) % 2 ^ 16)
      × (increase_count d < 2 ^ 64)
unfolding increase_count get_pointer get_count
increase_count_fields d hd = omega arith

-- What the stack needs of the counter: below its largest value it goes up, and the pointer stays.
pub pointer_kept : (d : ℕ) → get_pointer (increase_count d) ≡ get_pointer d
unfolding increase_count get_pointer
pointer_kept d = omega arith

pub count_up : (d : ℕ) → get_count d + 1 < 2 ^ 16 → get_count (increase_count d) ≡ get_count d + 1
unfolding increase_count get_count
count_up d h = omega arith
