-- ===== src/Runbook/Book.antt =====
-- The runbook of parser.rs and worker.rs of crates/runbook, and its lookups. Parser
-- reads it from TOML values.
use otters.Base.{ℕ, String, Option, List}
use otters.Base.Dict.{Dict, empty, get}
use otters.Runbook.Command.{CommandDef}
use otters.Runbook.Pipeline.{PipelineDef}
use otters.Runbook.Agent.{AgentDef}

pub record WorkerDef : Type 0 where
  pub name : String
  pub concurrency : ℕ
  pub pipelines : List String

pub record Runbook : Type 0 where
  pub commands : Dict CommandDef
  pub workers : Dict WorkerDef
  pub pipelines : Dict PipelineDef
  pub agents : Dict AgentDef

-- `Runbook::default()`
unfoldable pub init : Runbook
init = record { commands = empty; workers = empty; pipelines = empty; agents = empty }

unfoldable pub get_command : Runbook → String → Option CommandDef
get_command r name = get r.commands name

unfoldable pub get_pipeline : Runbook → String → Option PipelineDef
get_pipeline r name = get r.pipelines name

unfoldable pub get_agent : Runbook → String → Option AgentDef
get_agent r name = get r.agents name

unfoldable pub get_worker : Runbook → String → Option WorkerDef
get_worker r name = get r.workers name
