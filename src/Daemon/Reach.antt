-- ===== src/Daemon/Reach.antt =====
-- What the main loop of main.rs does between two waits, as steps of a relation: a request, an
-- internal event, a heartbeat, a check of the sessions.
use otters.Base.{
  ℕ, zero, suc, String, ◌≡◌, refl, sym, ◌∙◌, ap, subst, Option, none, some, List, [], ◌∷◌, arith,
}
use otters.Base.Result.{Result, ok, err}
use otters.Core.Clock.{Instant}
use otters.Core.Event.{Event}
use otters.Engine.Machine.{Env, Machine}
use otters.Engine.Error.{RuntimeError}
use otters.Engine.Frame.{
  Framed, handle_event-Keeps, handle_claude_exited-Keeps, handle_tmux_exited-Keeps,
}
use otters.Engine.Scheduler.{Scheduler, init, fired_timers}
use otters.Engine.Runtime.{Setup}
use otters.Daemon.Lifecycle.{
  Daemon, LifecycleError, Outcome, resume, process_events, process_event, process_each,
  check_heartbeats,
}
use otters.Daemon.Sessions.{
  SessionEvent, tmux_exited, claude_exited, Probe, check_sessions, on_session_event,
  on_session_events,
}
use otters.Daemon.Server.{
  Request, Response, ping, hello, event, query, shutdown, status, session_send, pipeline_resume,
  pipeline_fail, answer, send_to, handle_request,
}

module _ {V W : Type 0} (env : Env V W) (setup : Setup) where
  pub data Step (d : Daemon W) : Daemon W → Type 0 where
    requests :
        {d' : Daemon W} (fuel : ℕ) (version : String) (now : Instant) (request : Request V)
        (response : Response)
        → handle_request env setup fuel version now d request ≡ some (response, d')
        → Step d d'
    receives :
        {d' : Daemon W} (fuel : ℕ) (e : Event V) (r : Result LifecycleError (Unit {0}))
        → process_event env setup fuel e d ≡ some (r, d')
        → Step d d'
    beats :
        {d' : Daemon W} (fuel : ℕ) (now : Instant) (r : Result LifecycleError (Unit {0}))
        → check_heartbeats env setup fuel now d ≡ some (r, d')
        → Step d d'
    checks :
        (probe : Probe)
        → Step d (on_session_events env setup (check_sessions probe d.machine.state) d)

  -- The daemons that a start leads to.
  pub data Reach (d : Daemon W) : Daemon W → Type 0 where
    here : Reach d d
    next : {e f : Daemon W} → Reach d e → Step e f → Reach d f

module _ {W A : Type 0} where
  -- `Q` holds of the daemon that a call leaves, if the call ends.
  abbrev pub Leaves : (Daemon W → Type 0) → Outcome W A → Type 0
  Leaves Q none = Unit
  Leaves Q (some (r, d)) = Q d

-- The machine has `P`, and the daemon's own scheduler is as it was made.
pub record Holds (W : Type 0) (P : Machine W → Type 0) (d : Daemon W) : Type 0 where
  pub machine : P d.machine
  pub idle : d.scheduler ≡ init

module _ {V W : Type 0} (env : Env V W) (setup : Setup) where
  beat :
      (fuel : ℕ) (now : Instant) (d : Daemon W) (s : Scheduler)
      → s ≡ init
      → process_each env setup fuel
          (fired_timers s now).0
          (record d { scheduler = (fired_timers {V = V} s now).1 })
        ≡ some (ok tt, record d { scheduler = s })
  unfolding process_each fired_timers init otters.Base.Dict.empty
  beat fuel now d s h = rw h refl

  -- A heartbeat finds no timer and changes nothing.
  pub check_heartbeats_idle :
      (fuel : ℕ) (now : Instant) (d : Daemon W)
      → d.scheduler ≡ init
      → check_heartbeats env setup fuel now d ≡ some (ok tt, d)
  unfolding check_heartbeats
  check_heartbeats_idle fuel now d h = beat fuel now d d.scheduler h

module _ {V W : Type 0} {env : Env V W} {P : Machine W → Type 0} (fr : Framed env P)
    (setup : Setup) where
  resume-Leaves :
      (loop : List (Event V) → Daemon W → Outcome W (Unit {0})) (rest : List (Event V))
      (r : Result RuntimeError (List (Event V))) (d : Daemon W)
      → ((pending : List (Event V)) (e : Daemon W)
          → Holds W P e
          → Leaves (Holds W P) (loop pending e))
      → Holds W P d
      → Leaves (Holds W P) (resume env setup loop rest r d)
  unfolding resume
  resume-Leaves loop rest (ok events) d ih h = ih _ d h
  resume-Leaves loop rest (err e) d ih h = h

  process_events-Leaves :
      (fuel : ℕ) (pending : List (Event V)) (d : Daemon W)
      → Holds W P d
      → Leaves (Holds W P) (process_events env setup fuel pending d)
  unfolding process_events
  process_events-Leaves zero pending d h = tt
  process_events-Leaves (suc fuel) [] d h = h
  process_events-Leaves (suc fuel) (e ∷ rest) d h =
      resume-Leaves (process_events env setup fuel) rest _ _ (process_events-Leaves fuel)
        (record { machine = (handle_event-Keeps fr setup e).at d.machine h.machine; idle = h.idle })

  pub process_event-Leaves :
      (fuel : ℕ) (e : Event V) (d : Daemon W)
      → Holds W P d
      → Leaves (Holds W P) (process_event env setup fuel e d)
  unfolding process_event
  process_event-Leaves fuel e d h = process_events-Leaves fuel (e ∷ []) d h

  -- What `answer` makes of a call.
  abbrev Answers : Option (Response × Daemon W) → Type 0
  Answers none = Unit
  Answers (some (r, d)) = Holds W P d

  answer-Answers :
      (r : Response) (o : Outcome W (Unit {0}))
      → Leaves (Holds W P) o
      → Answers (answer env setup r o)
  unfolding answer
  answer-Answers r none h = tt
  answer-Answers r (some (ok u, d)) h = h
  answer-Answers r (some (err e, d)) h = h

  send_to-Answers :
      (fuel : ℕ) (id input : String) (d : Daemon W) (sid : Option String)
      → Holds W P d
      → Answers (send_to env setup fuel id input d sid)
  unfolding send_to
  send_to-Answers fuel id input d none h = h
  send_to-Answers fuel id input d (some sid) h =
      answer-Answers _ _ (process_event-Leaves fuel _ d h)

  handle_request-Answers :
      (fuel : ℕ) (version : String) (now : Instant) (d : Daemon W) (r : Request V)
      → Holds W P d
      → Answers (handle_request env setup fuel version now d r)
  unfolding handle_request
  handle_request-Answers fuel version now d ping h = h
  handle_request-Answers fuel version now d (hello v) h = h
  handle_request-Answers fuel version now d (event e) h =
      answer-Answers _ _ (process_event-Leaves fuel e d h)
  handle_request-Answers fuel version now d (query q) h = h
  handle_request-Answers fuel version now d shutdown h = record {
    machine = h.machine;
    idle = h.idle;
  }
  handle_request-Answers fuel version now d status h = h
  handle_request-Answers fuel version now d (session_send id input) h =
      send_to-Answers fuel id input d _ h
  handle_request-Answers fuel version now d (pipeline_resume id) h =
      answer-Answers _ _ (process_event-Leaves fuel _ d h)
  handle_request-Answers fuel version now d (pipeline_fail id message) h =
      answer-Answers _ _ (process_event-Leaves fuel _ d h)

  on_session_events-Holds :
      (es : List SessionEvent) (d : Daemon W)
      → Holds W P d
      → Holds W P (on_session_events env setup es d)
  unfolding on_session_events on_session_event
  on_session_events-Holds [] d h = h
  on_session_events-Holds (tmux_exited id ∷ es) d h = on_session_events-Holds es _ (record {
    machine = (handle_tmux_exited-Keeps fr setup id).at d.machine h.machine;
    idle = h.idle;
  })
  on_session_events-Holds (claude_exited id ∷ es) d h = on_session_events-Holds es _ (record {
    machine = (handle_claude_exited-Keeps fr setup id).at d.machine h.machine;
    idle = h.idle;
  })

  pub Step-Holds : {d e : Daemon W} → Step env setup d e → Holds W P d → Holds W P e
  Step-Holds {d} (requests fuel version now r response p) h =
      subst Answers p (handle_request-Answers fuel version now d r h)
  Step-Holds {d} (receives fuel e r p) h =
      subst (Leaves (Holds W P)) p (process_event-Leaves fuel e d h)
  Step-Holds {d} (beats fuel now r p) h =
      subst (Leaves (Holds W P)) (sym (check_heartbeats_idle env setup fuel now d h.idle) ∙ p) h
  Step-Holds {d} (checks probe) h = on_session_events-Holds _ d h

  pub Reach-Holds : {d e : Daemon W} → Reach env setup d e → Holds W P d → Holds W P e
  Reach-Holds here h = h
  Reach-Holds (next r st) h = Step-Holds st (Reach-Holds r h)
