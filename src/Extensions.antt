-- ===== src/Extensions.antt =====
-- tool/extension_registry_v2.py: the manifests of extensions and the registry. A `ValueError` or a
-- `ManifestVerificationError` is held by its message or code. The writing of a file is not modelled.
pub mod Manifest
pub mod Registry
mod Tests
