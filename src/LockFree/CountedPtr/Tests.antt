-- ===== src/LockFree/CountedPtr/Tests.antt =====
-- A pointer with a small count, and the word whose count is the largest.
use concurrency_library.Common.{ℕ, ◌+◌, ◌*◌, ◌%◌, ◌^◌, ◌<◌, ◌≡◌, arith}
use concurrency_library.LockFree.CountedPtr.{make, get_pointer, get_count, increase_count}
use concurrency_library.LockFree.CountedPtr.Fields.{get-make, increase_count_fields}

get-make_example : (get_pointer (make 4096 3) ≡ 4096) × (get_count (make 4096 3) ≡ 3)
get-make_example = get-make 4096 3 (omega arith) (omega arith)

abbrev last_count : ℕ
last_count = 65535 * 2 ^ 48 + 4096

increase_count_fields_example :
    (get_pointer (increase_count last_count) ≡ get_pointer last_count)
    × (get_count (increase_count last_count) ≡ (get_count last_count + 1) % 2 ^ 16)
    × (increase_count last_count < 2 ^ 64)
increase_count_fields_example = increase_count_fields last_count (omega arith)
