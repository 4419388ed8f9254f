-- ===== src/Core.antt =====
-- The crate `oj_core` (crates/core): events, effects, operations and the state machines over them.
pub mod Event
pub mod Operation
pub mod Effect
pub mod Pipeline
pub mod Worker
pub mod Clock
