-- ===== src/LockFree/CountedPtr.antt =====
-- lockfree/stack.hpp and lockfree/queue.hpp, `CountedPtr`: a pointer of 48 bits and a counter of 16
-- bits in one 64-bit word. `&` with the mask of the low 48 bits is `% 2 ^ 48`, `>> 48` is `/ 2 ^ 48`.
pub mod Fields
mod Tests
use concurrency_library.Common.{ℕ, ◌*◌, ◌/◌, ◌%◌, ◌^◌, add64}

-- `(uint64_t)ptr + (count << kPointerSize)`
unfoldable pub make : ℕ → ℕ → ℕ
make ptr count = add64 ptr ((count * 2 ^ 48) % 2 ^ 64)

unfoldable pub get_pointer : ℕ → ℕ
get_pointer dirty_ptr = dirty_ptr % 2 ^ 48

-- `(dirty_ptr_ & kCounterMask) + (uint64_t)ptr`
unfoldable pub set_pointer : ℕ → ℕ → ℕ
set_pointer dirty_ptr ptr = add64 ((dirty_ptr / 2 ^ 48) * 2 ^ 48) ptr

unfoldable pub get_count : ℕ → ℕ
get_count dirty_ptr = dirty_ptr / 2 ^ 48

unfoldable pub increase_count : ℕ → ℕ
increase_count dirty_ptr = add64 dirty_ptr (2 ^ 48)
