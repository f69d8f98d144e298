-- ===== src/Channels.antt =====
-- channels: bounded channels between fibers, and the selection among several of them.
pub mod Channel
pub mod Select
