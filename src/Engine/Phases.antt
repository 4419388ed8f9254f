-- ===== src/Engine/Phases.antt =====
-- phases.rs of crates/engine: the effects of a pipeline's moves between phases.
use otters.Base.{String, Option, none, some, List, [], ◌∷◌, ◌++◌, if◌then◌else◌}
use otters.Core.Event.{custom}
use otters.Core.Effect.{Effect, emit, persist, kill}
use otters.Core.Operation.{
  running, completed, pipeline_transition, phase_status_update, session_delete,
}
use otters.Core.Pipeline.{Pipeline, is_terminal}
use otters.Engine.Machine.{Env}

module _ {V W : Type 0} (env : Env V W) where
  unfoldable pub phase_start_effects : String → String → List (Effect V)
  phase_start_effects pipeline_id phase_name =
      persist (phase_status_update pipeline_id running)
      ∷ emit (
          custom "pipeline:phase:start"
            (env.object (("pipeline_id", pipeline_id) ∷ ("phase", phase_name) ∷ [])))
      ∷ []

  unfoldable pub phase_transition_effects : Pipeline → String → List (Effect V)
  phase_transition_effects p next_phase =
      persist (pipeline_transition p.id next_phase)
      ∷ emit (custom "pipeline:phase" (env.object (("id", p.id) ∷ ("phase", next_phase) ∷ [])))
      ∷ []

  unfoldable pub failure_transition_effects : Pipeline → String → String → List (Effect V)
  failure_transition_effects p on_fail error =
      persist (pipeline_transition p.id on_fail)
      ∷ emit (
          custom "pipeline:phase"
            (env.object (("id", p.id) ∷ ("phase", on_fail) ∷ ("error", error) ∷ [])))
      ∷ []

  unfoldable pub failure_effects : Pipeline → String → List (Effect V)
  failure_effects p error =
      persist (pipeline_transition p.id "failed")
      ∷ emit (
          custom "pipeline:failed" (
            env.object (
              ("pipeline_id", p.id)
              ∷ ("name", p.name)
              ∷ ("phase", p.phase)
              ∷ ("error", error)
              ∷ [])))
      ∷ []

  -- The session goes with the pipeline, if it has one.
  close_session : Option String → List (Effect V)
  close_session none = []
  close_session (some session_id) = kill session_id ∷ persist (session_delete session_id) ∷ []

  unfoldable pub completion_effects : Pipeline → List (Effect V)
  unfolding close_session
  completion_effects p =
      (if is_terminal p then [] else persist (pipeline_transition p.id "done") ∷ [])
      ++ (persist (phase_status_update p.id completed)
          ∷ emit (
              custom "pipeline:completed"
                (env.object (("pipeline_id", p.id) ∷ ("name", p.name) ∷ ("kind", p.kind) ∷ [])))
          ∷ close_session p.session_id)
