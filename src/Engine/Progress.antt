-- ===== src/Engine/Progress.antt =====
-- How a pipeline goes on from one shell phase to the next one: `advance_pipeline` and `start_phase` of
-- runtime.rs with the effects of phases.rs and the executor.
use otters.Base.{String, false, ◌≡◌, refl, ap, ◌∙◌, some, [], ◌∷◌, eq_refl}
use otters.Base.Int.{pos}
use otters.Base.Result.{Result, ok}
use otters.Base.Exec.{lift, gets, mapping, ◌>>=◌}
use otters.Base.Dict.{Dict, get, modify, get-modify, empty}
use otters.Core.Event.{shell_completed}
use otters.Core.Effect
use otters.Core.Operation.{pending, running}
use otters.Core.Pipeline.{Pipeline, is_terminal}
use otters.Storage.State.{MaterializedState, apply}
use otters.Runbook.Command.{shell}
use otters.Runbook.Pipeline.{PhaseDef, PipelineDef, get_phase}
use otters.Runbook.Book.{get_pipeline}
use otters.Engine.Machine.{Env, Machine, outside}
use otters.Engine.Executor.{execute}
use otters.Engine.Phases.{phase_start_effects}
use otters.Engine.Yields.{
  Works, Yields, Yields-bind, Yields-pure, Yields-mapping, Yields-record, Yields-execute_all,
  Yields-no_effects,
}
use otters.Engine.Completion.{moved_to, phase_transition-Yields}
use otters.Engine.Runtime.{
  Setup, run_effects, next_phase_name, has_phase_def, dispatch_run, start_phase, enter_phase,
  advance_to, advance_pipeline, handle_shell_completed, handle_event,
}

-- Every shell command ends with exit code 0.
pub record Succeeds {V W : Type 0} (env : Env V W) : Type 0 where
  pub exits :
      (command cwd : String) (vars : Dict String) (w : W)
      → (env.run_shell command cwd vars w).0 ≡ ok (some (pos 0))

-- The pipeline in a phase that was started.
abbrev pub entered : Pipeline → String → Pipeline
entered p phase = record p { phase = phase; phase_status = running }

abbrev marked_running : String → MaterializedState → MaterializedState
marked_running id s = record s {
  pipelines = modify s.pipelines id (λ p. record p { phase_status = running });
}

module _ {W E : Type 0} where
  Yields-get :
      (id : String) (s : MaterializedState)
      → Yields {W = W} {E = E} (gets (λ m. get m.state.pipelines id)) s (get s.pipelines id) s
  unfolding gets
  Yields-get id s = record { at = λ m h. (ap (λ x. ok (get x.pipelines id)) h, h) }

  Yields-lift :
      {A : Type 0} (r : Result E A) (a : A) (s : MaterializedState)
      → r ≡ ok a
      → Yields {W = W} (lift r) s a s
  unfolding lift
  Yields-lift r a s e = record { at = λ m h. (e, h) }

module _ {V W : Type 0} (env : Env V W) (works : Works env) (succeeds : Succeeds env)
    (setup : Setup) where
  Yields-shell :
      (id phase command cwd : String) (vars : Dict String) (s : MaterializedState)
      → Yields
          (execute env (Effect.shell id phase command cwd vars))
          s
          (some (shell_completed id phase (pos 0)))
          s
  unfolding execute ◌>>=◌ mapping outside
  Yields-shell id phase command cwd vars s = record {
    at = λ m h. rw (succeeds.exits command cwd vars m.world) (refl, h);
  }

  phase_start-Yields :
      (id phase : String) (s : MaterializedState)
      → Yields (run_effects env setup (phase_start_effects env id phase)) s [] (marked_running id s)
  unfolding run_effects phase_start_effects apply
  phase_start-Yields id phase s = Yields-mapping _ (
      Yields-record env works _ _ _ s (marked_running id s) (λ now. refl)
        (Yields-no_effects env works _))

  dispatch-Yields :
      (cmd : String) (p : Pipeline) (id phase : String) (inputs : Dict String) (workspace : String)
      (s : MaterializedState)
      → Yields
          (dispatch_run env setup (shell cmd) p id phase inputs workspace)
          s
          (shell_completed id phase (pos 0) ∷ [])
          s
  unfolding dispatch_run run_effects
  dispatch-Yields cmd p id phase inputs workspace s = Yields-mapping _ (
      Yields-execute_all env works _ _ (Yields-shell id phase _ workspace empty s)
        (Yields-no_effects env works s))

  start_phase-Yields :
      (p : Pipeline) (phase cmd : String) (d : PipelineDef) (phase_def : PhaseDef)
      (inputs : Dict String) (workspace : String) (s : MaterializedState)
      → get s.pipelines p.id ≡ some p
      → get_pipeline setup.runbook p.kind ≡ some d
      → get_phase d phase ≡ some phase_def
      → phase_def.run ≡ shell cmd
      → Yields
          (start_phase env setup p.id phase inputs workspace)
          s
          (shell_completed p.id phase (pos 0) ∷ [])
          (marked_running p.id s)
  unfolding start_phase
  start_phase-Yields p phase cmd d phase_def inputs workspace s stored kind found run =
      Yields-bind _ (Yields-get p.id s) (
        Yields-bind _ (Yields-lift _ p s (rw stored refl)) (
          Yields-bind _ (Yields-lift _ d s (rw kind refl)) (
            Yields-bind _ (Yields-lift _ phase_def s (rw found refl)) (
              Yields-bind _ (phase_start-Yields p.id phase s) (
                Yields-bind _ (rw run (dispatch-Yields cmd p p.id phase inputs workspace _))
                  (Yields-pure _ _))))))

-- The phase behind the pipeline's own is one that the runbook defines, and runs a shell command.
pub record IsShellNext (setup : Setup) (p : Pipeline) (phase : String) : Type 0 where
  pub next : next_phase_name setup.runbook p ≡ some phase
  pub pipeline_def : PipelineDef
  pub phase_def : PhaseDef
  pub command : String
  pub kind : get_pipeline setup.runbook p.kind ≡ some pipeline_def
  pub found : get_phase pipeline_def phase ≡ some phase_def
  pub run : phase_def.run ≡ shell command

module _ {V W : Type 0} (env : Env V W) (works : Works env) (succeeds : Succeeds env)
    (setup : Setup) where
  advance-Yields :
      (p : Pipeline) (phase : String) (s : MaterializedState)
      → get s.pipelines p.id ≡ some p
      → IsShellNext setup p phase
      → Yields
          (advance_to env setup p (next_phase_name setup.runbook p))
          s
          (shell_completed p.id phase (pos 0) ∷ [])
          (marked_running p.id (moved_to p.id phase s))
  unfolding advance_to enter_phase has_phase_def
  advance-Yields p phase s stored h = rw h.next (
      Yields-bind _ (phase_transition-Yields env works setup p phase s) (
        Yields-bind _
          (rw (h.kind, h.found)
            (start_phase-Yields env works succeeds setup
              (record p { phase = phase; phase_status = pending }) phase h.command h.pipeline_def
              h.phase_def p.inputs _ (moved_to p.id phase s)
              (rw (get-modify, eq_refl p.id, stored) refl) h.kind h.found h.run))
          (Yields-pure _ _)))

  -- The success of a shell phase starts the next shell phase, whose own success is the event that
  -- comes of it.
  pub handle_event-entered :
      (m : Machine W) (p : Pipeline) (phase : String)
      → get m.state.pipelines p.id ≡ some p
      → is_terminal p ≡ false
      → IsShellNext setup p phase
      → let (r, m') = handle_event env setup (shell_completed p.id p.phase (pos 0)) m in
        (r ≡ ok (shell_completed p.id phase (pos 0) ∷ []))
        × (get m'.state.pipelines p.id ≡ some (entered p phase))
  unfolding handle_event handle_shell_completed advance_pipeline ◌>>=◌
  handle_event-entered m p phase stored going h =
      let (returned, state) = (advance-Yields p phase m.state stored h).at m refl in
      rw (stored, eq_refl p.phase, going)
        (
          returned,
          ap (λ s. get s.pipelines p.id) state
              ∙ rw (get-modify, get-modify, eq_refl p.id, stored) refl,
        )
