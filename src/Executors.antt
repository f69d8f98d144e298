-- ===== src/Executors.antt =====
-- executors: running submitted routines.
pub mod ManualExecutor
pub mod Strand
pub mod ThreadPool
