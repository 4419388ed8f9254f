-- ===== src/Engine/Runtime.antt =====
-- runtime.rs of crates/engine: how events move pipelines through the phases of their runbook.
mod Phase
mod Session
mod Handler
pub mod Timer
pub use Phase.{Setup}
unfoldable pub use Phase.{
  run_effects, run_effect, workspace_path, start_session_monitor, complete_pipeline, spawn_agent,
  dispatch_run, start_phase, next_phase_name, on_fail_name, has_phase_def, enter_phase, advance_to,
  advance_pipeline, fail_to, fail_pipeline,
}
unfoldable pub use Session.{
  kill_old, remove_old, kill_and_respawn, execute_action_effects, watch_log, check_log,
  monitor_active, exit_active, act_on_state, handle_session_monitor, handle_claude_exited,
  handle_tmux_exited,
}
unfoldable pub use Handler.{
  create_effects, start_first, create_pipeline, run_command, handle_command, session_exit,
  agent_event, monitor_timer, handle_session_exit, handle_agent_event, monitored_pipeline,
  handle_timer, handle_shell_completed, handle_event,
}
