-- ===== src/Alerting.antt =====
-- The package alerting/, which turns gateway events into alerts: the names of limit events, the state
-- that rules share, the rules, and the dispatcher.
pub mod Names
pub mod Store
pub mod Rules
pub mod World
pub mod Handlers
pub mod Dispatch
