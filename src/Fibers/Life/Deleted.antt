-- ===== src/Fibers/Life/Deleted.antt =====
-- fibers/fiber.hpp and fibers/fiber.cpp: when a fiber is deleted.
use concurrency_library.Common.{ℕ, ◌+◌, ◌≤◌, ◌≡◌, refl, Bool, true, false, ◌||◌, if◌then◌else◌}
use concurrency_library.Fibers.Life.{Fiber, suspend, schedule, discard}

abbrev pub bit : Bool → ℕ
bit b = if b then 1 else 0

-- No run is to come any more: the fiber has completed, or its executor has dropped its task.
abbrev pub ended : Fiber → Bool
ended f = f.completed || f.dropped

-- The calls of `Discard` that are still to come for past runs, less the one that does not delete,
-- plus the deletions, are one exactly if the fiber has ended.
pub record Inv (f : Fiber) : Type 0 where
  pub balance : f.outstanding + bit f.need_to_delete_after_discard + f.deletions ≡ 1 + bit (ended f)
  pub kept : f.need_to_delete_after_discard ≡ false → f.deletions ≡ 0
  pub late : f.deletions ≤ bit (ended f)
  pub waiting : f.queued ≡ true → ended f ≡ false
  pub one_end : f.completed ≡ true → f.dropped ≡ false

-- Two runs that suspend before `Discard` is called for the first: the fiber is deleted, and has not
-- completed.
pub overlap_deletes :
    (f : Fiber)
    → ((discard (discard (suspend (schedule (suspend f))))).deletions ≡ f.deletions + 1)
      × ((discard (discard (suspend (schedule (suspend f))))).completed ≡ f.completed)
unfolding suspend schedule discard
overlap_deletes f = (refl, refl)
