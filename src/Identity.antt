-- ===== src/Identity.antt =====
-- The identities of a run: pkg/environment/identity.go.
pub mod Collisions
pub mod Manifests
pub mod Slashes
pub mod Bound
pub mod Site
pub mod Provision
pub mod Gate
pub mod Tracked
pub mod Provisioned
pub mod Gated
pub mod Deadline
pub mod Revoked
pub mod Grants
pub mod Protection
mod Tests
