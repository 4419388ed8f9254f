-- ===== src/Engine.antt =====
-- The crate `oj_engine` (crates/engine): effects are executed here, and events drive pipelines.
pub mod Scheduler
pub mod Error
pub mod Machine
pub mod Executor
pub mod Phases
pub mod SessionLog
pub mod Workspace
pub mod Spawn
pub mod Monitor
pub mod Events
pub mod Runtime
pub mod Frame
pub mod Durable
pub mod Pipelines
pub mod Yields
pub mod Completion
pub mod Progress
pub mod Unlinked
pub mod Stranded
