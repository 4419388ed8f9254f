-- ===== src/Runbook.antt =====
-- The crate `oj_runbook` (crates/runbook): the definitions that a runbook file gives.
pub mod Template
pub mod Command
pub mod ArgSyntax
pub mod Pipeline
pub mod Agent
pub mod Book
pub mod Parser
