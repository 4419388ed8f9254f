-- ===== src/Engine/Spawn.antt =====
-- spawn.rs of crates/engine: the effects that start an agent.
use otters.Base.{String, Option, none, some, List, [], ◌∷◌, ◌++◌, if◌then◌else◌}
use otters.Base.Text.{◌<>◌, join_path, is_absolute}
use otters.Base.Result.{map_err}
use otters.Base.Exec.{pure, lift, gets, mapping, ◌>>=◌, ◌>>◌}
use otters.Base.Dict.{Dict, insert}
use otters.Core.Clock.{Duration, from_secs}
use otters.Core.Effect.{Effect, persist, spawn, set_timer}
use otters.Core.Operation.{session_create}
use otters.Core.Pipeline.{Pipeline}
use otters.Runbook.Template.{interpolate}
use otters.Runbook.Agent.{AgentDef, get_prompt, build_command, build_env}
use otters.Engine.Error.{ExecuteError, RuntimeError}
use otters.Engine.Machine.{Env, Action}
use otters.Engine.Workspace.{prepare_for_agent}

abbrev pub session_monitor_interval : Duration
session_monitor_interval = from_secs 10

-- `format!("session:{}:check", pipeline_id)`
unfoldable pub session_timer : String → String
session_timer pipeline_id = "session:" <> pipeline_id <> ":check"

-- The variables that templates may name, over the inputs.
unfoldable pub template_vars : Dict String → (pipeline_id name workspace : String) → Dict String
template_vars inputs pipeline_id name workspace =
    insert (insert (insert inputs "pipeline_id" pipeline_id) "name" name) "workspace" workspace

-- `OJ_SOCKET_DIR`, if it is set
inherited : Option String → List (String × String)
inherited none = []
inherited (some socket_dir) = ("OJ_SOCKET_DIR", socket_dir) ∷ []

abbrev cwd_of : String → String → String
cwd_of workspace_path cwd = if is_absolute cwd then cwd else join_path workspace_path cwd

module _ {V W : Type 0} (env : Env V W) where
  agent_cwd : Option String → String → Dict String → Option String
  agent_cwd none workspace_path vars = none
  agent_cwd (some cwd_template) workspace_path vars =
      some (cwd_of workspace_path (interpolate env.templates cwd_template vars))

  spawn_effects :
      AgentDef → String → Dict String → (workspace_path project_root : String) → List (Effect V)
  unfolding agent_cwd inherited
  spawn_effects agent_def pipeline_id vars workspace_path project_root =
      persist (session_create pipeline_id pipeline_id)
      ∷ spawn pipeline_id (build_command env.templates agent_def vars)
          ((build_env env.templates agent_def vars ++ ("OJ_PROJECT_ROOT", project_root) ∷ [])
            ++ inherited (env.templates.env_var "OJ_SOCKET_DIR"))
          (agent_cwd agent_def.cwd workspace_path vars)
      ∷ set_timer (session_timer pipeline_id) session_monitor_interval
      ∷ []

  unfoldable pub build_spawn_effects :
      AgentDef
      → Pipeline
      → (pipeline_id agent_name : String) → Dict String
      → (workspace_path project_root : String) → Action W RuntimeError (List (Effect V))
  unfolding spawn_effects
  build_spawn_effects agent_def p pipeline_id agent_name inputs workspace_path project_root = do
    let vars = template_vars inputs pipeline_id p.name workspace_path
    read ← gets (λ m. env.read_file m.world)
    prompt ← lift (
        map_err (RuntimeError.prompt_error agent_name)
          (get_prompt env.templates read agent_def vars))
    mapping (λ e. RuntimeError.execute (ExecuteError.shell e))
        (prepare_for_agent env workspace_path project_root p.name prompt)
    pure (spawn_effects agent_def pipeline_id vars workspace_path project_root)
