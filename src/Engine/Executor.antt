-- ===== src/Engine/Executor.antt =====
-- executor.rs of crates/engine. Tracing is left out: it changes nothing that the engine reads.
use otters.Base.{ℕ, String, Option, none, some, List, [], ◌∷◌}
use otters.Base.Int.{ℤ, negsuc}
use otters.Base.Result.{Result, ok, err}
use otters.Base.Exec.{pure, lift, gets, mapping, ◌>>=◌, ◌>>◌}
use otters.Base.Dict.{get}
use otters.Core.Event.{Event, shell_completed}
use otters.Core.Effect.{
  Effect, emit, spawn, send, kill, worktree_add, worktree_remove, set_timer, cancel_timer, persist,
  shell, notify,
}
use otters.Core.Operation.{Operation}
use otters.Core.Clock.{Instant, Duration}
use otters.Storage.State.{Workspace, apply}
use otters.Storage.Wal.{WalError, WriteOutcome, append}
use otters.Engine.Scheduler
use otters.Engine.Error.{ExecuteError}
use otters.Engine.Machine.{Env, Action, outside, ask}

-- `exit_code.unwrap_or(-1)`
abbrev pub exit_code_of : Option ℤ → ℤ
exit_code_of none = negsuc 0
exit_code_of (some c) = c

-- `cwd.unwrap_or(workspace_path)`
abbrev pub effective_cwd : Option String → String → String
effective_cwd none path = path
effective_cwd (some cwd) path = cwd

-- The path of a workspace, for `Spawn`.
abbrev pub path_of : String → Option Workspace → Result ExecuteError String
path_of id none = err (ExecuteError.workspace_not_found id)
path_of id (some w) = ok w.path

-- `events.push` where the effect gave an event
abbrev pub push_event {ℓ} : {A : Type ℓ} → Option A → List A → List A
push_event none es = es
push_event (some e) es = e ∷ es

module _ {V W : Type 0} (env : Env V W) where
  append_log : WriteOutcome → Operation → Action W WalError ℕ
  append_log outcome op m =
      let (r, wal) = append env.codec outcome op m.wal in (r, record m { wal = wal })

  apply_state : Instant → Operation → Action W ExecuteError (Unit {0})
  apply_state now op m = (ok tt, record m { state = apply now m.state op })

  unfoldable pub record_state : Operation → Action W ExecuteError (Unit {0})
  unfolding apply_state
  record_state op = do now ← ask env.now; apply_state now op

  -- The log first, and the state only if the log has the operation.
  unfoldable pub persist_operation : Operation → Action W ExecuteError (Unit {0})
  unfolding append_log
  persist_operation op = do
    outcome ← ask env.write_log
    mapping ExecuteError.storage (append_log outcome op)
    record_state op

  unfoldable pub arm : String → Duration → Instant → Action W ExecuteError (Unit {0})
  arm id duration now m =
      (ok tt, record m { scheduler = Scheduler.set_timer m.scheduler id duration now })

  unfoldable pub disarm : String → Action W ExecuteError (Unit {0})
  disarm id m = (ok tt, record m { scheduler = Scheduler.cancel_timer m.scheduler id })

  unfoldable pub execute : Effect V → Action W ExecuteError (Option (Event V))
  execute (emit event) = do
    mapping ExecuteError.notify (outside (env.send_notification "events" (env.debug_event event)))
    pure none
  execute (spawn workspace_id command vars cwd) = do
    found ← gets (λ m. get m.state.workspaces workspace_id)
    path ← lift (path_of workspace_id found)
    mapping ExecuteError.session
        (outside (env.spawn_session workspace_id (effective_cwd cwd path) command vars))
    pure none
  execute (send session_id input) = do
    mapping ExecuteError.session (outside (env.send_session session_id input))
    pure none
  execute (kill session_id) = do
    mapping ExecuteError.session (outside (env.kill_session session_id))
    pure none
  execute (worktree_add branch path) = do
    mapping ExecuteError.repo (outside (env.add_worktree branch path))
    pure none
  execute (worktree_remove path) = do
    mapping ExecuteError.repo (outside (env.remove_worktree path))
    pure none
  execute (set_timer id duration) = do now ← ask env.now; arm id duration now; pure none
  execute (cancel_timer id) = do disarm id; pure none
  execute (persist operation) = do persist_operation operation; pure none
  execute (shell pipeline_id phase command cwd vars) = do
    status ← mapping ExecuteError.shell (outside (env.run_shell command cwd vars))
    pure (some (shell_completed pipeline_id phase (exit_code_of status)))
  execute (notify title message) = do ask (λ w. (tt, env.notify_desktop title message w)); pure none

  unfoldable pub execute_all : List (Effect V) → Action W ExecuteError (List (Event V))
  execute_all [] = pure []
  execute_all (effect ∷ effects) = do
    event ← execute effect
    events ← execute_all effects
    pure (push_event event events)
