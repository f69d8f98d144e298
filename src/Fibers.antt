-- ===== src/Fibers.antt =====
-- fibers: the life of a fiber, and what fibers use to wait for one another.
pub mod ConditionVariable
pub mod Life
pub mod Mutex
pub mod WaitGroup
