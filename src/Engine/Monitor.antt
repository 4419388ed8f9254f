-- ===== src/Engine/Monitor.antt =====
-- monitor.rs of crates/engine: what is done about an agent that is idle, has failed or has exited.
pub mod Nudge
use otters.Base.{String, Bool, Option, none, some, List, [], ◌∷◌, if◌then◌else◌}
use otters.Base.Text.{◌<>◌}
use otters.Base.Result.{Result, ok, err, or_fail, ◌>>=◌}
use otters.Base.Dict.{Dict, get, insert}
use otters.Core.Event.{custom}
use otters.Core.Effect.{Effect, emit, send, notify, persist, cancel_timer}
use otters.Core.Operation.{waiting, phase_status_update}
use otters.Core.Pipeline.{Pipeline}
use otters.Runbook.Template.{get_or}
use otters.Runbook.Command.{RunDirective, agent}
use otters.Runbook.Pipeline.{PhaseDef, get_phase}
use otters.Runbook.Agent.{
  AgentAction, ActionConfig, AgentDef, ErrorType, action_of, message_of, append_of,
}
use otters.Runbook.Book.{Runbook, get_pipeline, get_agent}
use otters.Engine.Error.{
  RuntimeError, pipeline_not_found, pipeline_def_not_found, agent_not_found, invalid_run_directive,
}
use otters.Engine.Machine.{Env}
use otters.Engine.SessionLog.{FailureReason}
use otters.Engine.Spawn.{session_timer}

unfoldable pub failure_to_error_type : FailureReason → Option ErrorType
failure_to_error_type FailureReason.unauthorized = some ErrorType.unauthorized
failure_to_error_type FailureReason.out_of_credits = some ErrorType.out_of_credits
failure_to_error_type FailureReason.no_internet = some ErrorType.no_internet
failure_to_error_type FailureReason.rate_limited = some ErrorType.rate_limited
failure_to_error_type (FailureReason.other message) = none

unfoldable pub failure_to_message : FailureReason → String
failure_to_message FailureReason.unauthorized = "API key unauthorized"
failure_to_message FailureReason.out_of_credits = "Out of API credits"
failure_to_message FailureReason.no_internet = "Network error"
failure_to_message FailureReason.rate_limited = "Rate limited"
failure_to_message (FailureReason.other message) = message

abbrev agent_of : String → RunDirective → Result RuntimeError String
agent_of phase (agent name) = ok name
agent_of phase _ = err (invalid_run_directive ("phase " <> phase) "not an agent phase")

unfoldable pub get_agent_def : Runbook → Pipeline → Result RuntimeError AgentDef
get_agent_def book p = do
  pipeline_def ← or_fail (get_pipeline book p.kind) (pipeline_def_not_found p.kind)
  phase_def ←
      or_fail (get_phase pipeline_def p.phase)
        (pipeline_not_found ("phase " <> p.phase <> " not found"))
  agent_name ← agent_of p.phase phase_def.run
  or_fail (get_agent book agent_name) (agent_not_found agent_name)

pub data ActionEffects (V : Type 0) : Type 0 where
  nudge : (effects : List (Effect V)) → ActionEffects V
  advance_pipeline : ActionEffects V
  fail_pipeline : (error : String) → ActionEffects V
  restart :
      (kill_session workspace_path : Option String)
      → (agent_name : String) → (inputs : Dict String) → ActionEffects V
  recover :
      (kill_session : Option String)
      → (agent_name : String) → (inputs : Dict String) → ActionEffects V
  escalate : (effects : List (Effect V)) → ActionEffects V

-- The inputs of an agent that is spawned again.
unfoldable pub recover_inputs : Option String → (append : Bool) → Dict String → Dict String
recover_inputs none append inputs = inputs
recover_inputs (some message) append inputs =
    if append
    then insert inputs "prompt" (get_or (get inputs "prompt") "" <> "\n\n" <> message)
    else insert inputs "prompt" message

module _ {V W : Type 0} (env : Env V W) where
  unfoldable pub escalate_effects : Pipeline → String → List (Effect V)
  escalate_effects p trigger =
      emit (
        custom "pipeline:escalate" (
          env.object (
            ("pipeline_id", p.id)
            ∷ ("pipeline_name", p.name)
            ∷ ("phase", p.phase)
            ∷ ("reason", trigger)
            ∷ [])))
      ∷ notify ("Pipeline needs attention: " <> p.name) trigger
      ∷ persist (phase_status_update p.id waiting)
      ∷ cancel_timer (session_timer p.id)
      ∷ []

  nudge_session : Option String → Option String → Result RuntimeError (ActionEffects V)
  nudge_session none message = err (pipeline_not_found "no session")
  nudge_session (some session_id) message =
      ok (nudge (send session_id (get_or message "Please continue with the task." <> "\n") ∷ []))

  effects_of :
      AgentAction
      → Pipeline
      → AgentDef
      → ActionConfig
      → (trigger : String) → Dict String
      → Result RuntimeError (ActionEffects V)
  unfolding nudge_session recover_inputs
  effects_of AgentAction.nudge p agent_def config trigger inputs =
      nudge_session p.session_id (message_of config)
  effects_of AgentAction.done p agent_def config trigger inputs = ok advance_pipeline
  effects_of AgentAction.fail p agent_def config trigger inputs = ok (fail_pipeline trigger)
  effects_of AgentAction.restart p agent_def config trigger inputs =
      ok (restart p.session_id p.workspace_path agent_def.name inputs)
  effects_of AgentAction.recover p agent_def config trigger inputs = ok (
      recover p.session_id agent_def.name
        (recover_inputs (message_of config) (append_of config) inputs))
  effects_of AgentAction.escalate p agent_def config trigger inputs =
      ok (escalate (escalate_effects p trigger))

  unfoldable pub build_action_effects :
      Pipeline
      → AgentDef
      → ActionConfig
      → (trigger : String) → Dict String
      → Result RuntimeError (ActionEffects V)
  unfolding effects_of
  build_action_effects p agent_def config trigger inputs =
      effects_of (action_of config) p agent_def config trigger inputs
