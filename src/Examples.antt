-- ===== src/Examples.antt =====
-- The properties at concrete inputs.
mod Setting
mod Texts
mod Contexts
mod Access
mod Runs
mod Services
mod Remote
mod Handlers
