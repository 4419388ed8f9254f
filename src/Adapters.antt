-- ===== src/Adapters.antt =====
-- The crate `oj_adapters` (crates/adapters): terminal sessions, git worktrees, notifications.
pub mod Session
pub mod Repo
pub mod Notify
pub mod Traced
