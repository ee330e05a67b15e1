-- ===== src/Alerts.antt =====
-- cognitod/src/alerts.rs: the rule engine.
pub mod Rules
pub mod Queues
pub mod Detect
pub mod Engine
pub mod Cooldown
pub mod Counting
pub mod Forks
mod Tests
