-- ===== src/Engine/Frame.antt =====
-- Properties of machines under all that the engine does (executor.rs, runtime.rs, events.rs,
-- spawn.rs): those that `persist_operation` keeps, and that read neither the timers nor the watchers
-- nor the outside world.
mod Effects
mod Phases
mod Sessions
mod Handlers
pub use Effects.{Framed, execute_all-Keeps}
pub use Sessions.{handle_claude_exited-Keeps, handle_tmux_exited-Keeps}
pub use Handlers.{handle_event-Keeps}
