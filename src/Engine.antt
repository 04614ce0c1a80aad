-- ===== src/Engine.antt =====
-- internal/engine: the agent loop with its guards, permissions, verifiers, tools and prompts.
pub mod Errors
pub mod Exec
pub mod Guard
pub mod Permission
pub mod Prompt
pub mod Session
pub mod Verify
pub mod Registry
pub mod State
pub mod Step
pub mod Delegate
pub mod RouterTexts
pub mod New
pub mod Run
pub mod History
pub mod Builtin
pub mod Calls
pub mod Judge
pub mod Options
