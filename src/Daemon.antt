-- ===== src/Daemon.antt =====
-- The crate `oj_daemon` (crates/daemon): the process that owns the event loop.
pub mod Lifecycle
pub mod Startup
pub mod Sessions
pub mod Wire
pub mod Server
pub mod Connection
pub mod Reach
pub mod Progress
pub mod Recovery
pub mod Timers
pub mod Invariants
