-- ===== src/Daemon/Invariants.antt =====
-- The pipelines of the daemons that a start of lifecycle.rs leads to, and their sessions.
use otters.Base.{String, ◌≡◌, refl, subst, List, [], ◌∷◌, Option, none, some, Bool-cases, inl, inr}
use otters.Base.Lists.{All, find}
use otters.Base.Int.{ℤ}
use otters.Base.Result.{Result, ok, err}
use otters.Base.Exec.{◌>>=◌}
use otters.Base.Dict.{Dict, get, values, get-AllEntries, values-AllEntries}
use otters.Core.Clock.{Instant}
use otters.Core.Event.{session_exited}
use otters.Core.Operation.{Operation}
use otters.Core.Pipeline.{Pipeline, same_session, is_terminal}
use otters.Storage.State.Each.{IsKept, Each, replay_state-Each}
use otters.Storage.Wal.{WalError}
use otters.Engine.Machine.{Env}
use otters.Runbook.Agent.{AgentAction, ActionConfig, AgentDef, action_of}
use otters.Engine.Error.{RuntimeError}
use otters.Engine.Monitor.{build_action_effects}
use otters.Engine.Monitor.Nudge.{build_action_effects-err}
use otters.Engine.Pipelines.{EachOf-Framed, IsKeyed, IsKeyed-IsKept, IsBare, IsBare-IsKept}
use otters.Engine.Runtime.{Setup, handle_event, handle_session_exit, session_exit}
use otters.Daemon.Lifecycle.{Daemon, start_with, content_of, startup}
use otters.Daemon.Sessions.{Probe, check_session, check_pipelines, check_sessions}
use otters.Daemon.Reach.{Reach, Holds, Reach-Holds}

module _ {V W : Type 0} (env : Env V W) (P : String → Pipeline → Type 0) (kept : IsKept P) where
  start_with-Each :
      (world : W) (now : Instant) (file : String) (r : Result WalError (List Operation))
      {d : Daemon W}
      → start_with world now file r ≡ ok d
      → Holds W (λ m. Each P m.state) d
  unfolding start_with
  start_with-Each world now file (err x) e = cc
  start_with-Each world now file (ok ops) e =
      subst (λ r. elim r [ ok d' ↦ Holds W (λ m. Each P m.state) d' | err x ↦ Unit {0} ]) e
        (record { machine = replay_state-Each P kept now ops; idle = refl })

  -- A property of pipelines that every operation keeps holds of all that a start leads to.
  pub Each-Reach :
      (setup : Setup) (world : W) (now : Instant) (file : Option String) (d e : Daemon W)
      → startup env world now file ≡ ok d
      → Reach env setup d e
      → Each P e.machine.state
  unfolding startup
  Each-Reach setup world now file d e s r =
      (Reach-Holds (EachOf-Framed env P kept) setup r
        (start_with-Each world now (content_of file) _ s)).machine

module _ {V W : Type 0} (env : Env V W) (setup : Setup) (world : W) (now : Instant)
    (file : Option String) (d e : Daemon W) (start : startup env world now file ≡ ok d)
    (reach : Reach env setup d e) where
  -- In every daemon that a start leads to, each pipeline is stored under its own id.
  pub IsKeyed-Reach :
      (k : String) (p : Pipeline) → get e.machine.state.pipelines k ≡ some p → p.id ≡ k
  IsKeyed-Reach k p h =
      get-AllEntries IsKeyed e.machine.state.pipelines k p
        (Each-Reach env IsKeyed IsKeyed-IsKept setup world now file d e start reach) h

  bare : Each IsBare e.machine.state
  bare = Each-Reach env IsBare IsBare-IsKept setup world now file d e start reach

  -- In every daemon that a start leads to, no pipeline names a session or holds an error message,
  -- whatever agents were spawned and whatever has failed.
  pub IsBare-Reach :
      (k : String) (p : Pipeline)
      → get e.machine.state.pipelines k ≡ some p
      → (p.session_id ≡ none) × (p.error ≡ none)
  IsBare-Reach k p h =
      let b = get-AllEntries IsBare e.machine.state.pipelines k p bare h in
      (b.no_session, b.no_error)

  no_sessions : All (λ p. p.session_id ≡ none) (values e.machine.state.pipelines)
  no_sessions =
      values-AllEntries IsBare (λ p. p.session_id ≡ none) (λ k p b. b.no_session)
        e.machine.state.pipelines bare

check_pipelines_bare :
    (probe : Probe) (ps : List Pipeline)
    → All (λ p. p.session_id ≡ none) ps
    → check_pipelines probe ps ≡ []
unfolding check_pipelines check_session
check_pipelines_bare probe [] h = refl
check_pipelines_bare probe (p ∷ ps) h = elim (Bool-cases (is_terminal p)) [
  | inl t ↦ rw t (check_pipelines_bare probe ps h.1)
  | inr t ↦ rw (t, h.0, check_session) (check_pipelines_bare probe ps h.1)
]

find_bare :
    (session_id : String) (ps : List Pipeline)
    → All (λ p. p.session_id ≡ none) ps
    → find (λ p. same_session p.session_id session_id) ps ≡ none
find_bare session_id [] h = refl
find_bare session_id (p ∷ ps) h = rw (h.0, same_session) (find_bare session_id ps h.1)

module _ {V W : Type 0} (env : Env V W) (setup : Setup) (world : W) (now : Instant)
    (file : Option String) (d e : Daemon W) (start : startup env world now file ≡ ok d)
    (reach : Reach env setup d e) where
  -- In every daemon that a start leads to, the check of the sessions reports nothing, whatever the
  -- session adapter answers.
  pub check_sessions-Reach : (probe : Probe) → check_sessions probe e.machine.state ≡ []
  unfolding check_sessions
  check_sessions-Reach probe =
      check_pipelines_bare probe _ (no_sessions env setup world now file d e start reach)

  -- In every daemon that a start leads to, the event that a session has exited returns no event and
  -- changes nothing, whatever the session and its exit code.
  pub handle_event-session_exited :
      (session_id : String) (exit_code : ℤ)
      → handle_event env setup (session_exited session_id exit_code) e.machine ≡ (ok [], e.machine)
  unfolding handle_event handle_session_exit session_exit ◌>>=◌
  handle_event-session_exited session_id exit_code = rw (
      find_bare session_id (values e.machine.state.pipelines)
        (no_sessions env setup world now file d e start reach))

  -- In every daemon that a start leads to, the effects of a nudge of a stored pipeline fail to build.
  pub build_action_effects-Reach :
      (k : String) (p : Pipeline) (agent_def : AgentDef) (config : ActionConfig) (trigger : String)
      (inputs : Dict String)
      → get e.machine.state.pipelines k ≡ some p
      → action_of config ≡ AgentAction.nudge
      → (x : RuntimeError) × (build_action_effects env p agent_def config trigger inputs ≡ err x)
  build_action_effects-Reach k p agent_def config trigger inputs h nudged =
      (build_action_effects-err env p agent_def config trigger inputs).1
        (nudged, (IsBare-Reach env setup world now file d e start reach k p h).0)
