-- ===== src/Trust.antt =====
-- The files on keys and signatures: tool/ed25519_ref.py, tool/signed_manifest_v2.py,
-- tool/manifest_compatibility_v2.py, tool/key_registry_v2.py and tool/signed_audit_checkpoint.py.
pub mod Bytes
pub mod Ed25519
pub mod Canonical
pub mod Manifest
pub mod Compatibility
pub mod KeyRegistry
pub mod Checkpoints
mod Tests
