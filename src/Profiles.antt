-- ===== src/Profiles.antt =====
-- tool/access_profile_v2.py: access profiles, their catalog and the patches of test data. An
-- `AccessProfileValidationError` is held by its message, without the names that Python puts into it.
pub mod Validate
pub mod Catalog
pub mod Patch
mod Tests
