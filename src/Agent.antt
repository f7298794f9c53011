-- ===== src/Agent.antt =====
-- The agent loop: pkg/agent.
pub mod Messages
pub mod Context
pub mod Loop
pub mod Retry
pub mod Waits
pub mod Recent
pub mod Turns
mod Tests
mod RetryTests
