-- ===== src/Engine/Events.antt =====
-- events.rs of crates/engine: custom events from outside.
use otters.Base.{String, List, [], ◌==◌, if◌then◌else◌}
use otters.Base.Text.{◌<>◌}
use otters.Base.Result.{or_fail}
use otters.Base.Exec.{pure, lift, gets, mapping, ◌>>=◌, ◌>>◌}
use otters.Core.Clock.{from_secs}
use otters.Core.Event.{Event}
use otters.Core.Effect.{send, persist, set_timer}
use otters.Core.Operation.{running, phase_status_update}
use otters.Storage.State.{get_pipeline}
use otters.Engine.Error.{RuntimeError, pipeline_not_found}
use otters.Engine.Machine.{Env, Action}
use otters.Engine.Executor.{execute}
use otters.Engine.SessionLog.{str_field}
use otters.Engine.Spawn.{session_timer}

module _ {V W : Type 0} (env : Env V W) where
  session_send : V → Action W RuntimeError (List (Event V))
  session_send value = do
    session_id ←
        lift (or_fail (str_field env value "session_id") (pipeline_not_found "missing session_id"))
    input ← lift (or_fail (str_field env value "input") (pipeline_not_found "missing input"))
    mapping RuntimeError.execute (execute env (send session_id (input <> "\n")))
    pure []

  pipeline_resume : V → Action W RuntimeError (List (Event V))
  pipeline_resume value = do
    pipeline_id ←
        lift
          (or_fail (str_field env value "pipeline_id") (pipeline_not_found "missing pipeline_id"))
    found ← gets (λ m. get_pipeline m.state pipeline_id)
    p ← lift (or_fail found (pipeline_not_found pipeline_id))
    mapping RuntimeError.execute (execute env (persist (phase_status_update p.id running)))
    mapping RuntimeError.execute (execute env (set_timer (session_timer p.id) (from_secs 10)))
    pure []

  unfoldable pub handle_custom_event : String → V → Action W RuntimeError (List (Event V))
  unfolding session_send pipeline_resume
  handle_custom_event name value =
      if name == "session:send"
      then session_send value
      else if name == "pipeline:resume"
      then pipeline_resume value
      else pure []
