-- ===== src/Context.antt =====
-- internal/context: the message history with its token count, and the compaction cascade.
pub mod Estimate
pub mod Compaction
pub mod Manager
