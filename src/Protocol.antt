-- ===== src/Protocol.antt =====
-- pkg/protocol: the messages of JSON-RPC and the parameters and results of the methods.
pub mod Message
pub mod Methods
pub mod Registration
