-- ===== src/Autopsy.antt =====
-- The failure autopsy of a run: pkg/autopsy/autopsy.go.
pub mod Report
pub mod Tokens
pub mod Patterns
pub mod Transcript
pub mod Repeats
pub mod Manifests
pub mod Analyze
pub mod Matching
pub mod Kinds
pub mod Classified
pub mod Unsafe
pub mod Samples
mod Tests
