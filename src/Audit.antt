-- ===== src/Audit.antt =====
-- Field transitions of mutations: pkg/audit/fields.go.
pub mod FieldPath
pub mod Fields
pub mod Transitions
pub mod Bodies
pub mod Events
pub mod Window
pub mod Ingest
pub mod Observed
pub mod Terminated
pub mod Markers
pub mod Health
pub mod Redact
pub mod Parse
pub mod Collect
pub mod Keeping
pub mod Reading
pub mod Sealing
pub mod Ending
pub mod Sealed
mod Tests
mod EventTests
pub mod Samples
mod CollectTests
