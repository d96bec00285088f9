-- ===== src/Safety.antt =====
-- tool/agent_safety_v2.py: the checks that stand between a model's proposals and their effects.
-- One child for each class of the file; the proofs stand in the modules below each child.
pub mod Context
pub mod Injection
pub mod Browser
pub mod Terminal
pub mod Research
pub mod Models
mod Tests
