-- ===== src/Rpc.antt =====
-- internal/rpc: the server, its handlers and the remote parts.
pub mod Pending
pub mod Server
pub mod Remote
pub mod Registry
pub mod Notifier
pub mod Configure
pub mod Handlers
