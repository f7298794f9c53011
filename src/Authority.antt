-- ===== src/Authority.antt =====
-- pkg/authority/plan.go, with the profile types of pkg/scenario/authority.go.
pub mod Profile
pub mod Rule
pub mod Compile
pub mod Classify
pub mod Scopes
pub mod Surface
pub mod Rbac
pub mod Sets
pub mod Orphans
pub mod Invariant
pub mod Gathered
pub mod Roles
pub mod Lockstep
pub mod Loader
pub mod Admission
mod Tests
