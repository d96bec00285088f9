-- ===== src/Policy.antt =====
-- tool/deterministic_policy_engine.py: the decision whether a requested effect is allowed, denied or
-- needs an approval. One child for each group of functions; `evaluate_policy` is in Evaluate.
pub mod Values
pub mod Paths
pub mod Sets
pub mod Scope
pub mod Approval
pub mod Overlays
pub mod Effects
pub mod Request
pub mod Widening
pub mod Identity
pub mod Evaluate
mod Tests
mod Runs
