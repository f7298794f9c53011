-- ===== src/Orchestrator.antt =====
-- Parallel runs on one cluster: pkg/orchestrator/orchestrator.go.
pub mod Outcome
pub mod Workers
pub mod Counting
mod Tests
