-- ===== src/Snapshot.antt =====
-- The state snapshots: pkg/snapshot.
pub mod Normalize
pub mod Sets
pub mod Diff
pub mod Volatile
pub mod Secrets
pub mod Keys
pub mod Changes
mod Tests
