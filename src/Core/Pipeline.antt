-- ===== src/Core/Pipeline.antt =====
-- pipeline/state.rs of crates/core: a pipeline and its pure transition function.
pub mod Failure
use otters.Base.{ℕ, String, Bool, Option, none, some, List, [], ◌∷◌, ◌==◌, ◌||◌, if◌then◌else◌}
use otters.Base.Dict.{Dict}
use otters.Base.Int.{ℤ, is_zero, show_ℤ}
use otters.Base.Text.{◌<>◌}
use otters.Core.Clock.{Instant}
use otters.Core.Event.{
  Event, command_invoked, worker_wake, session_started, session_output, session_exited, timer,
  agent_done, agent_error, shell_completed, custom,
}
use otters.Core.Effect.{Effect, persist}
use otters.Core.Operation.{PhaseStatus, pending, running, completed, failed, pipeline_transition}

pub record Pipeline : Type 0 where
  pub id : String
  pub name : String
  pub kind : String
  pub phase : String
  pub phase_status : PhaseStatus
  pub inputs : Dict String
  pub workspace_path : Option String
  pub session_id : Option String
  pub created_at : Instant
  pub phase_started_at : Instant
  pub error : Option String

-- `Pipeline::new`
unfoldable pub new :
    (id name kind : String) → Dict String → (initial_phase : String) → Instant → Pipeline
new id name kind inputs initial_phase now = record {
  id = id;
  name = name;
  kind = kind;
  phase = initial_phase;
  phase_status = pending;
  inputs = inputs;
  workspace_path = none;
  session_id = none;
  created_at = now;
  phase_started_at = now;
  error = none;
}

-- `pipeline.session_id.as_ref() == Some(session_id)`
abbrev pub same_session : Option String → String → Bool
same_session none s = Bool.false
same_session (some t) s = t == s

module _ {V : Type 0} where
  -- The change that a failure makes, and the transition that it persists.
  fail_with : Pipeline → String → Pipeline × List (Effect V)
  fail_with p error = (
    record p { phase = "failed"; phase_status = failed; error = some error },
    persist (pipeline_transition p.id "failed") ∷ [],
  )

  unfoldable pub transition : Pipeline → Event V → Pipeline × List (Effect V)
  unfolding fail_with
  transition p (session_started session_id) =
      if same_session p.session_id session_id
      then (record p { phase_status = running }, [])
      else (p, [])
  transition p (session_exited session_id exit_code) =
      if same_session p.session_id session_id
      then (if is_zero exit_code
          then (record p { phase_status = completed; session_id = none }, [])
          else fail_with p ("exit code: " <> show_ℤ exit_code))
      else (p, [])
  transition p (agent_done pipeline_id) =
      if p.id == pipeline_id then (record p { phase_status = completed }, []) else (p, [])
  transition p (agent_error pipeline_id error) =
      if p.id == pipeline_id then fail_with p error else (p, [])
  transition p (timer id) = (p, [])
  transition p (command_invoked command args) = (p, [])
  transition p (worker_wake worker) = (p, [])
  transition p (session_output session_id output) = (p, [])
  transition p (shell_completed pipeline_id phase exit_code) = (p, [])
  transition p (custom name value) = (p, [])

abbrev pub is_terminal_phase : String → Bool
is_terminal_phase phase = phase == "done" || phase == "failed"

unfoldable pub is_terminal : Pipeline → Bool
is_terminal p = is_terminal_phase p.phase

unfoldable pub with_workspace : Pipeline → String → Pipeline
with_workspace p path = record p { workspace_path = some path }

unfoldable pub with_session : Pipeline → String → Pipeline
with_session p id = record p { session_id = some id; phase_status = running }
