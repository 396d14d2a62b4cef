-- ===== src/Workflow.antt =====
-- The workflow engine (crates/launcher-workflow).
pub mod Graph
pub mod Engine
pub mod Scheduler
pub mod Variables
pub mod Validation
pub mod Runner
