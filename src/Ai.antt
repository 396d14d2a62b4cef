-- ===== src/Ai.antt =====
-- The agent side (crates/launcher-ai): plans, their approval, the agent loop and its budgets.
pub mod Plan
pub mod Approval
pub mod Budget
pub mod Loop
pub mod Tests
