-- ===== src/Cli.antt =====
-- The crate `cli` (crates/cli): the command line client.
pub mod Client
pub mod System
pub mod Startup
pub mod Stop
pub mod Start
