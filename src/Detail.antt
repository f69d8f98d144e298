-- ===== src/Detail.antt =====
-- The parts of detail/.
pub mod SpinLock
pub mod WaitGroup
