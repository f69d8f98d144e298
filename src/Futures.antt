-- ===== src/Futures.antt =====
-- The parts of futures/.
pub mod Result
pub mod Contract
pub mod Pipeline
pub mod All
pub mod FirstOf
