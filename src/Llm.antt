-- ===== src/Llm.antt =====
-- internal/llm: the messages of the chat API, the repair of JSON written by small models, and the
-- retrying HTTP client.
pub mod Message
pub mod FixJson
pub mod Retry
