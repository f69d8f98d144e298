-- ===== src/Fibers/Life.antt =====
-- fibers/fiber.hpp and fibers/fiber.cpp: the life of one fiber. Its task runs the coroutine until it
-- suspends or completes, and the executor then calls `Discard`, since the task is allocated on the
-- heap. An executor that is destroyed calls `Discard` on the tasks that it has not run. A fiber that suspends may be scheduled again by `AwaitSuspend`, and run again on another
-- thread, before the executor has called `Discard` for the run that suspended.
pub mod Deleted
mod Tests
use concurrency_library.Common.{
  ℕ, ◌+◌, ◌-◌, ◌<◌, ◌≡◌, Bool, true, false, not, ◌||◌, ◌==◌, if◌then◌else◌,
}

pub record Fiber : Type 0 where
  pub need_to_delete_after_discard : Bool
  pub completed : Bool
  pub queued : Bool  -- its task waits in the executor
  pub dropped : Bool  -- the executor was destroyed while its task waited
  pub outstanding : ℕ  -- the runs for which `Discard` is still to be called
  pub deletions : ℕ
  pub overlapped : Bool  -- it has suspended while a `Discard` of an earlier run was outstanding

abbrev pub init : Fiber
init = record {
  need_to_delete_after_discard = true;
  completed = false;
  queued = true;
  dropped = false;
  outstanding = 0;
  deletions = 0;
  overlapped = false;
}

-- A run that ends with `Suspend`.
unfoldable pub suspend : Fiber → Fiber
suspend f = record f {
  need_to_delete_after_discard = false;
  queued = false;
  outstanding = f.outstanding + 1;
  overlapped = f.overlapped || not (f.outstanding == 0);
}

-- A run that completes the coroutine.
unfoldable pub complete : Fiber → Fiber
complete f = record f { completed = true; queued = false; outstanding = f.outstanding + 1 }

-- `Schedule` and `YieldSchedule`
unfoldable pub schedule : Fiber → Fiber
schedule f = record f { queued = true }

-- `FiberTask::Discard`
unfoldable pub discard : Fiber → Fiber
discard f =
    if f.need_to_delete_after_discard
    then record f { deletions = f.deletions + 1 }
    else record f { need_to_delete_after_discard = true }

-- The task runs; who has resumed a suspended fiber schedules it; the executor calls `Discard` after
-- a run, or without one.
pub data Step (f : Fiber) : Fiber → Type 0 where
  run_suspend : f.queued ≡ true → Step f (suspend f)
  run_complete : f.queued ≡ true → Step f (complete f)
  resume : f.queued ≡ false → f.completed ≡ false → f.dropped ≡ false → Step f (schedule f)
  call_discard : 0 < f.outstanding → Step f (discard (record f { outstanding = f.outstanding - 1 }))
  drop : f.queued ≡ true → Step f (discard (record f { queued = false; dropped = true }))

pub data Reach : Fiber → Type 0 where
  here : Reach init
  next : {f g : Fiber} → Reach f → Step f g → Reach g
