-- ===== src/LockFree.antt =====
-- lockfree: containers that several threads use without locks.
pub mod Bounded
pub mod CountedPtr
pub mod RingQueue
pub mod Stack
