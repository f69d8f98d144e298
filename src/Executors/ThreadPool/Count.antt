-- ===== src/Executors/ThreadPool/Count.antt =====
-- executors/thread_pool: counting the routines that stand in its queues, each with a weight.
use concurrency_library.Common.{
  ℕ, ◌+◌, ◌≡◌, List, [], ◌∷◌, ◌++◌, arith, weigh, take, drop, take-append-drop, ap,
}
use concurrency_library.Executors.ThreadPool.{Routine, Local, ThreadPool}

-- The weight of a list. With weight 1 for one routine and 0 for the others this is how often that
-- routine stands in it.
abbrev pub count : (Routine → ℕ) → List Routine → ℕ
count w [] = 0
count w (r ∷ rs) = w r + count w rs

pub count-append :
    (w : Routine → ℕ) (xs ys : List Routine) → count w (xs ++ ys) ≡ count w xs + count w ys
count-append w [] ys = omega arith
count-append w (x ∷ xs) ys = omega (arith, count-append w xs ys)

pub count-take-drop :
    (w : Routine → ℕ) (n : ℕ) (xs : List Routine)
    → count w (take n xs) + count w (drop n xs) ≡ count w xs
count-take-drop w n xs =
    omega (arith, count-append w (take n xs) (drop n xs), ap (count w) (take-append-drop n xs))

-- The weight of the slot and the queue of a worker.
abbrev pub count_local : (Routine → ℕ) → Local → ℕ
count_local w l = w l.lifo_slot + count w l.queue

-- The weight of all slots and queues.
abbrev pub count_pool : (Routine → ℕ) → ThreadPool → ℕ
count_pool w p = weigh (count_local w) p.workers p.locals + count w p.global_queue
