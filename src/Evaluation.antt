-- ===== src/Evaluation.antt =====
-- pkg/evaluation: the verdicts, the authoritative engine, the results and the service that runs a plan.
pub mod Coverage
pub mod Verdict
pub mod Input
pub mod Findings
pub mod Engine
pub mod Violations
pub mod Precedence
pub mod Stability
pub mod Evidence
pub mod Plan
pub mod Termination
pub mod Result
pub mod World
pub mod Messages
pub mod Service
pub mod Lifecycle
pub mod Tallies
pub mod Accounting
pub mod Validity
pub mod Manifest
mod Tests
mod RunTests
