-- ===== src/Intelligence.antt =====
-- tool/execution_intelligence.py: provider health, semantic progress, bounded convergence and phase
-- budgets. One child for each class of the file; the proofs stand in the modules below each child.
pub mod Circuit
pub mod Progress
pub mod Convergence
pub mod Budget
mod Tests
