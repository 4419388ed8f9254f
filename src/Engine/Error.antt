-- ===== src/Engine/Error.antt =====
-- Errors of crates/engine (error.rs, executor.rs) and of the adapter traits (crates/adapters).
use otters.Base.{String}
use otters.Base.Text.{◌<>◌}
use otters.Storage.Wal.{WalError}

pub data SessionError : Type 0 where
  not_found spawn_failed command_failed : String → SessionError

pub data RepoError : Type 0 where
  worktree_not_found command_failed branch_exists : String → RepoError

pub data NotifyError : Type 0 where
  send_failed : String → NotifyError

pub data ExecuteError : Type 0 where
  session : SessionError → ExecuteError
  repo : RepoError → ExecuteError
  notify : NotifyError → ExecuteError
  storage : WalError → ExecuteError
  workspace_not_found : String → ExecuteError
  shell : String → ExecuteError

pub data RuntimeError : Type 0 where
  execute : ExecuteError → RuntimeError
  pipeline_not_found : String → RuntimeError
  command_not_found : String → RuntimeError
  pipeline_def_not_found : String → RuntimeError
  agent_not_found : String → RuntimeError
  prompt_error : (agent message : String) → RuntimeError
  invalid_run_directive : (context directive : String) → RuntimeError

-- The texts of the `#[error]` attributes.
pub show_wal : WalError → String
show_wal (WalError.io e) = "IO error: " <> e
show_wal (WalError.json e) = "JSON error: " <> e

show_session : SessionError → String
show_session (not_found e) = "session not found: " <> e
show_session (spawn_failed e) = "spawn failed: " <> e
show_session (SessionError.command_failed e) = "command failed: " <> e

show_repo : RepoError → String
show_repo (worktree_not_found e) = "worktree not found: " <> e
show_repo (RepoError.command_failed e) = "command failed: " <> e
show_repo (branch_exists e) = "branch already exists: " <> e

show_notify : NotifyError → String
show_notify (send_failed e) = "send failed: " <> e

unfoldable pub show_execute : ExecuteError → String
unfolding show_wal show_session show_repo show_notify
show_execute (session e) = "session error: " <> show_session e
show_execute (repo e) = "repo error: " <> show_repo e
show_execute (notify e) = "notify error: " <> show_notify e
show_execute (storage e) = "storage error: " <> show_wal e
show_execute (workspace_not_found e) = "workspace not found: " <> e
show_execute (shell e) = "shell execution error: " <> e

unfoldable pub show_runtime : RuntimeError → String
unfolding show_execute
show_runtime (execute e) = "execute error: " <> show_execute e
show_runtime (pipeline_not_found e) = "pipeline not found: " <> e
show_runtime (command_not_found e) = "command not found: " <> e
show_runtime (pipeline_def_not_found e) = "pipeline definition not found: " <> e
show_runtime (agent_not_found e) = "agent not found: " <> e
show_runtime (prompt_error agent message) = "prompt error for agent " <> agent <> ": " <> message
show_runtime (invalid_run_directive context directive) =
    "invalid run directive for " <> context <> ": " <> directive
