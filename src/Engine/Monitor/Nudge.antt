-- ===== src/Engine/Monitor/Nudge.antt =====
-- When `build_action_effects` of monitor.rs fails.
use otters.Base.{String, ◌≡◌, ◌↔◌, refl, Option, none, some}
use otters.Base.Result.{err}
use otters.Base.Dict.{Dict}
use otters.Core.Pipeline.{Pipeline}
use otters.Runbook.Agent.{AgentAction, ActionConfig, AgentDef, action_of, message_of}
use otters.Engine.Error.{RuntimeError, pipeline_not_found}
use otters.Engine.Machine.{Env}
use otters.Engine.Monitor.{nudge_session, effects_of, build_action_effects}

abbrev no_session : RuntimeError
no_session = pipeline_not_found "no session"

module _ {V W : Type 0} (env : Env V W) where
  nudge_session-err :
      (session_id message : Option String) (e : RuntimeError)
      → nudge_session env session_id message ≡ err e
      → session_id ≡ none
  unfolding nudge_session
  nudge_session-err none message e h = refl
  nudge_session-err (some s) message e h = cc

  effects_of-err :
      (action : AgentAction) (p : Pipeline) (agent_def : AgentDef) (config : ActionConfig)
      (trigger : String) (inputs : Dict String) (e : RuntimeError)
      → effects_of env action p agent_def config trigger inputs ≡ err e
      → (action ≡ AgentAction.nudge) × (p.session_id ≡ none)
  unfolding effects_of
  effects_of-err AgentAction.nudge p agent_def config trigger inputs e h =
      (refl, nudge_session-err p.session_id (message_of config) e h)
  effects_of-err AgentAction.done p agent_def config trigger inputs e h = cc
  effects_of-err AgentAction.fail p agent_def config trigger inputs e h = cc
  effects_of-err AgentAction.restart p agent_def config trigger inputs e h = cc
  effects_of-err AgentAction.recover p agent_def config trigger inputs e h = cc
  effects_of-err AgentAction.escalate p agent_def config trigger inputs e h = cc

  effects_of-nudge :
      (action : AgentAction) (p : Pipeline) (agent_def : AgentDef) (config : ActionConfig)
      (trigger : String) (inputs : Dict String)
      → action ≡ AgentAction.nudge
      → p.session_id ≡ none
      → effects_of env action p agent_def config trigger inputs ≡ err no_session
  unfolding effects_of nudge_session
  effects_of-nudge action p agent_def config trigger inputs a s = rw (a, s)

  -- The effects of an action fail to build if and only if the action is a nudge and the pipeline has no session.
  pub build_action_effects-err :
      (p : Pipeline) (agent_def : AgentDef) (config : ActionConfig) (trigger : String)
      (inputs : Dict String)
      → ((e : RuntimeError) × (build_action_effects env p agent_def config trigger inputs ≡ err e))
        ↔ ((action_of config ≡ AgentAction.nudge) × (p.session_id ≡ none))
  unfolding build_action_effects
  build_action_effects-err p agent_def config trigger inputs = (
    λ h. effects_of-err (action_of config) p agent_def config trigger inputs h.0 h.1,
    λ h.
        (no_session, effects_of-nudge (action_of config) p agent_def config trigger inputs h.0 h.1),
  )
