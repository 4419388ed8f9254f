-- ===== src/Engine/Frame/Effects.antt =====
-- What every effect keeps, and the code that only prepares or runs effects.
use otters.Base.{String, List, [], ◌∷◌}
use otters.Base.Exec.{Exec, Keeps, keeps_rules, Keeps-bind, Keeps-pure}
use otters.Base.Dict.{Dict}
use otters.Core.Effect.{Effect, persist}
use otters.Core.Operation.{Operation}
use otters.Core.Pipeline.{Pipeline}
use otters.Runbook.Agent.{AgentDef}
use otters.Engine.Scheduler.{Scheduler}
use otters.Engine.Scheduler
use otters.Core.Clock.{Instant, Duration}
use otters.Engine.Machine.{Env, Machine, outside, ask}
use otters.Engine.Executor.{persist_operation, arm, disarm, execute, execute_all}
use otters.Engine.Workspace.{prepare_for_agent}
use otters.Engine.Spawn.{build_spawn_effects}
use otters.Engine.Events.{handle_custom_event}

pub record Framed {V W : Type 0} (env : Env V W) (P : Machine W → Type 0) : Type 0 where
  pub frame :
      (m : Machine W) (s : Scheduler) (ws : Dict String) (w : W)
      → P m
      → P (record m { scheduler = s; watchers = ws; world = w })
  pub persists : (op : Operation) → Keeps P (persist_operation env op)

module _ {V W : Type 0} {env : Env V W} {P : Machine W → Type 0} (fr : Framed env P) where
  pub Keeps-outside : {E A : Type 0} (f : Exec W E A) → Keeps P (outside f)
  unfolding outside
  Keeps-outside f = record { at = λ m h. fr.frame m m.scheduler m.watchers (f m.world).1 h }

  pub Keeps-ask : {E A : Type 0} (f : W → A × W) → Keeps P (ask {E = E} f)
  unfolding ask
  Keeps-ask f = record { at = λ m h. fr.frame m m.scheduler m.watchers (f m.world).1 h }

  Keeps-arm : (id : String) (d : Duration) (now : Instant) → Keeps P (arm env id d now)
  unfolding arm
  Keeps-arm id d now = record {
    at = λ m h. fr.frame m (Scheduler.set_timer m.scheduler id d now) m.watchers m.world h;
  }

  Keeps-disarm : (id : String) → Keeps P (disarm env id)
  unfolding disarm
  Keeps-disarm id = record {
    at = λ m h. fr.frame m (Scheduler.cancel_timer m.scheduler id) m.watchers m.world h;
  }

  ruleset frame_rules = (keeps_rules, Keeps-outside, Keeps-ask, Keeps-arm, Keeps-disarm)

  pub execute-Keeps : (effect : Effect V) → Keeps P (execute env effect)
  unfolding execute
  execute-Keeps (persist op) = search (keeps_rules, fr.persists)
  execute-Keeps _ = search frame_rules

  pub execute_all-Keeps : (effects : List (Effect V)) → Keeps P (execute_all env effects)
  unfolding execute_all
  execute_all-Keeps [] = search keeps_rules
  execute_all-Keeps (effect ∷ effects) =
      Keeps-bind _ _ (execute-Keeps effect)
        λ event. Keeps-bind _ _ (execute_all-Keeps effects) λ events. Keeps-pure _

  prepare_for_agent-Keeps :
      (workspace_path project_root pipeline_name prompt : String)
      → Keeps P (prepare_for_agent env workspace_path project_root pipeline_name prompt)
  unfolding prepare_for_agent
  prepare_for_agent-Keeps workspace_path project_root pipeline_name prompt =
      search frame_rules depth 14

  pub build_spawn_effects-Keeps :
      (d : AgentDef) (p : Pipeline) (pipeline_id agent_name : String) (inputs : Dict String)
      (workspace_path project_root : String)
      → Keeps P
          (build_spawn_effects env d p pipeline_id agent_name inputs workspace_path project_root)
  unfolding build_spawn_effects
  build_spawn_effects-Keeps d p pipeline_id agent_name inputs workspace_path project_root =
      search (frame_rules, prepare_for_agent-Keeps)

  pub handle_custom_event-Keeps :
      (name : String) (value : V) → Keeps P (handle_custom_event env name value)
  unfolding handle_custom_event
  handle_custom_event-Keeps name value = search (keeps_rules, execute-Keeps) depth 9
