-- ===== src/Harness.antt =====
-- The harness, that runs a case and builds its result: pkg/harness.
pub mod Checkpoints
pub mod ObjectNames
pub mod Preservation
pub mod AuditWindow
pub mod EngineView
pub mod CaseBuild
pub mod CaseVerdict
pub mod Identities
pub mod Settled
pub mod AutopsyReport
pub mod Convictions
pub mod Outcomes
pub mod Faults
pub mod Soundness
pub mod Assurance
mod Tests
mod IdentityTests
