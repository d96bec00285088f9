-- ===== src/Grants.antt =====
-- tool/capability_grant_v2.py: capability grants, from their validation to their use.
pub mod Ledger
pub mod Validate
pub mod Issue
mod Tests
