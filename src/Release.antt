-- ===== src/Release.antt =====
-- tool/release_ops_v19.py: signed manifests, the audit chain with its checkpoints, versions with
-- the plan of a rollback, update manifests, policy profiles and the fleet configuration.
pub mod Signing
pub mod Audit
pub mod Checkpoint
pub mod Version
pub mod Update
pub mod Rollback
pub mod Profiles
mod Tests
