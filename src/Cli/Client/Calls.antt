-- ===== src/Cli/Client/Calls.antt =====
-- The client's calls, end to end: what each of them returns of a daemon.
use otters.Base.{
  ℕ, ◌-◌, ◌/◌, String, ◌≡◌, refl, sym, ap, ◌∙◌, true, Option, none, some, List, [], ◌∷◌, ◌++◌, map,
}
use otters.Base.Text.{◌<>◌}
use otters.Base.Lists.{length}
use otters.Base.Result.{ok, err, ◌>>=◌}
use otters.Base.Dict.{values}
use otters.Core.Clock.{Instant}
use otters.Core.Event.{Event, custom, agent_error}
use otters.Storage.State
use otters.Engine.Machine.{Env}
use otters.Engine.Runtime.{Setup}
use otters.Daemon.Lifecycle.{Daemon, Outcome, process_event}
use otters.Daemon.Wire.{Stream, IsStream, Json, IsJson, encode, write_message}
use otters.Daemon.Server.{
  Request, Response, PipelineSummary, PipelineDetail, SessionSummary, summary, detail_of,
  session_summary, active_pipelines, session_target, show_lifecycle, query, answer, send_to,
  handle_query, handle_request,
}
use otters.Daemon.Server
use otters.Daemon.Connection.{handle_connection}
use otters.Cli.Client.{
  Reply, rejected, Connected, accepted, listed_pipelines, found_pipeline, told_status, shut_down,
  greeted, listed_sessions, confirmed, send, send_on,
}
use otters.Cli.Client
use otters.Cli.Client.Exchange.{send-handle_connection}

-- The calls of a client.
pub data Call (V : Type 0) : Type 0 where
  send_event : Event V → Call V
  list_pipelines : Call V
  get_pipeline : (id : String) → Call V
  status : Call V
  shutdown : Call V
  hello : (version : String) → Call V
  list_sessions : Call V
  session_send : (id input : String) → Call V
  pipeline_resume : (id : String) → Call V
  pipeline_fail : (id error : String) → Call V

-- What a call that succeeds returns.
abbrev pub Value : {V : Type 0} → Call V → Type 0
Value (send_event e) = Unit {0}
Value list_pipelines = List PipelineSummary
Value (get_pipeline id) = Option PipelineDetail
Value status = ℕ × ℕ × ℕ
Value shutdown = Unit {0}
Value (hello version) = String
Value list_sessions = List SessionSummary
Value (session_send id input) = Unit {0}
Value (pipeline_resume id) = Unit {0}
Value (pipeline_fail id error) = Unit {0}

abbrev pub request_of : {V : Type 0} → Call V → Request V
request_of (send_event e) = Request.event e
request_of list_pipelines = query Server.list_pipelines
request_of (get_pipeline id) = query (Server.get_pipeline id)
request_of status = Request.status
request_of shutdown = Request.shutdown
request_of (hello version) = Request.hello version
request_of list_sessions = query Server.list_sessions
request_of (session_send id input) = Request.session_send id input
request_of (pipeline_resume id) = Request.pipeline_resume id
request_of (pipeline_fail id error) = Request.pipeline_fail id error

abbrev reader : {V : Type 0} → (call : Call V) → Response → Reply (Value call)
reader (send_event e) = accepted
reader list_pipelines = listed_pipelines
reader (get_pipeline id) = found_pipeline
reader status = told_status
reader shutdown = shut_down
reader (hello version) = greeted
reader list_sessions = listed_sessions
reader (session_send id input) = confirmed
reader (pipeline_resume id) = confirmed
reader (pipeline_fail id error) = confirmed

module _ {V R U : Type 0} (s : Stream R U) (requests : Json (Request V))
    (responses : Json Response) where
  -- A run of a call of the client.
  abbrev pub perform : (call : Call V) → Connected R U → Reply (Value call)
  perform (send_event e) c = Client.send_event s requests responses e c
  perform list_pipelines c = Client.list_pipelines s requests responses c
  perform (get_pipeline id) c = Client.get_pipeline s requests responses id c
  perform status c = Client.status s requests responses c
  perform shutdown c = Client.shutdown s requests responses c
  perform (hello version) c = Client.hello s requests responses version c
  perform list_sessions c = Client.list_sessions s requests responses c
  perform (session_send id input) c = Client.session_send s requests responses id input c
  perform (pipeline_resume id) c = Client.pipeline_resume s requests responses id c
  perform (pipeline_fail id error) c = Client.pipeline_fail s requests responses id error c

  perform-send :
      (call : Call V) (c : Connected R U)
      → perform call c ≡ (send s requests responses (request_of call) c >>= reader call)
  unfolding Client.send_event Client.list_pipelines Client.get_pipeline Client.status
      Client.shutdown Client.hello Client.list_sessions Client.session_send Client.pipeline_resume
      Client.pipeline_fail
  perform-send (send_event e) c = refl
  perform-send list_pipelines c = refl
  perform-send (get_pipeline id) c = refl
  perform-send status c = refl
  perform-send shutdown c = refl
  perform-send (hello version) c = refl
  perform-send list_sessions c = refl
  perform-send (session_send id input) c = refl
  perform-send (pipeline_resume id) c = refl
  perform-send (pipeline_fail id error) c = refl

  performed :
      (call : Call V) (r : R) (w : U) (response : Response)
      → send_on s requests responses (request_of call) r w ≡ ok response
      → perform call (ok (r, w)) ≡ reader call response
  unfolding send
  performed call r w response e = perform-send call (ok (r, w)) ∙ ap (λ x. x >>= reader call) e

module _ {V W : Type 0} (env : Env V W) (setup : Setup) where
  -- The reply to a call whose event was processed, or failed.
  abbrev pub processed : Outcome W (Unit {0}) → Option (Reply (Unit {0}) × Daemon W)
  processed none = none
  processed (some (ok u, d)) = some (ok tt, d)
  processed (some (err e, d)) = some (err (rejected (show_lifecycle e)), d)

  abbrev pub sent_to :
      (fuel : ℕ)
      → (id input : String) → Daemon W
      → Option String
      → Option (Reply (Unit {0}) × Daemon W)
  sent_to fuel id input d none = some (err (rejected ("Session not found: " <> id)), d)
  sent_to fuel id input d (some sid) = processed (
      process_event env setup fuel
        (custom "session:send" (env.object (("session_id", sid) ∷ ("input", input) ∷ []))) d)

  -- What a call is for: the reply that the daemon's state promises, and the daemon that it leaves.
  abbrev pub promised :
      (fuel : ℕ)
      → (version : String) → (now : Instant) → Daemon W
      → (call : Call V) → Option (Reply (Value call) × Daemon W)
  promised fuel version now d (send_event e) = processed (process_event env setup fuel e d)
  promised fuel version now d list_pipelines =
      some (ok (map summary (values d.machine.state.pipelines)), d)
  promised fuel version now d (get_pipeline id) =
      some (ok (detail_of (State.get_pipeline d.machine.state id)), d)
  promised fuel version now d status = some (
    ok (
      (now - d.start_time) / 1000,
      active_pipelines d.machine.state,
      length (values d.machine.state.sessions),
    ),
    d,
  )
  promised fuel version now d shutdown = some (ok tt, record d { shutdown_requested = true })
  promised fuel version now d (hello v) = some (ok version, d)
  promised fuel version now d list_sessions =
      some (ok (map session_summary (values d.machine.state.sessions)), d)
  promised fuel version now d (session_send id input) =
      sent_to fuel id input d (session_target d.machine.state id)
  promised fuel version now d (pipeline_resume id) = processed (
      process_event env setup fuel
        (custom "pipeline:resume" (env.object (("pipeline_id", id) ∷ []))) d)
  promised fuel version now d (pipeline_fail id message) =
      processed (process_event env setup fuel (agent_error id message) d)

  abbrev heard :
      {A : Type 0}
      → (Response → Reply A)
      → Option (Response × Daemon W)
      → Option (Reply A × Daemon W)
  heard read none = none
  heard read (some (r, d)) = some (read r, d)

  processed-answer :
      (read : Response → Reply (Unit {0})) (r : Response) (o : Outcome W (Unit {0}))
      → read r ≡ ok tt
      → ((message : String) → read (Response.error message) ≡ err (rejected message))
      → processed o ≡ heard read (answer env setup r o)
  unfolding answer
  processed-answer read r none h k = refl
  processed-answer read r (some (ok u, d)) h k = rw h
  processed-answer read r (some (err e, d)) h k = rw k

  sent_to-send_to :
      (fuel : ℕ) (id input : String) (d : Daemon W) (o : Option String)
      → sent_to fuel id input d o ≡ heard confirmed (send_to env setup fuel id input d o)
  unfolding send_to
  sent_to-send_to fuel id input d none = refl
  sent_to-send_to fuel id input d (some sid) =
      processed-answer confirmed Response.done _ refl (λ m. refl)

  promised-handle_request :
      (fuel : ℕ) (version : String) (now : Instant) (d : Daemon W) (call : Call V)
      → promised fuel version now d call
        ≡ heard (reader call) (handle_request env setup fuel version now d (request_of call))
  unfolding handle_request handle_query
  promised-handle_request fuel version now d (send_event e) =
      processed-answer accepted (Response.event true) _ refl (λ m. refl)
  promised-handle_request fuel version now d list_pipelines = refl
  promised-handle_request fuel version now d (get_pipeline id) = refl
  promised-handle_request fuel version now d status = refl
  promised-handle_request fuel version now d shutdown = refl
  promised-handle_request fuel version now d (hello v) = refl
  promised-handle_request fuel version now d list_sessions = refl
  promised-handle_request fuel version now d (session_send id input) =
      sent_to-send_to fuel id input d (session_target d.machine.state id)
  promised-handle_request fuel version now d (pipeline_resume id) =
      processed-answer confirmed Response.done _ refl (λ m. refl)
  promised-handle_request fuel version now d (pipeline_fail id message) =
      processed-answer confirmed Response.done _ refl (λ m. refl)

module _ {V W R U : Type 0} (env : Env V W) (setup : Setup) (s : Stream R U)
    (requests : Json (Request V)) (responses : Json Response) where
  -- Every call of the client returns what it is for, and leaves the daemon that it is to leave: the
  -- lists, the pipeline, the counts, the version that the daemon's state holds; a success where the
  -- event of the call is processed; the daemon's message where it is refused. For this, what the two
  -- ends wrote arrives, the encodings are inverse to the decodings, and both writes succeed.
  pub perform-handle_connection :
      (fuel : ℕ) (version : String) (now : Instant) (call : Call V) (bytes rest rest' : List ℕ)
      (cr sr : R) (cw cw' sw sw' : U) (d d' : Daemon W)
      → IsStream s
      → IsJson requests
      → IsJson responses
      → encode requests (request_of call) ≡ ok bytes
      → write_message s bytes cw ≡ (ok tt, cw')
      → s.sent cw ++ s.unread sr ≡ s.sent cw' ++ rest
      → handle_connection env setup s requests responses fuel version now sr sw d
        ≡ some (ok tt, sw', d')
      → s.sent sw ++ s.unread cr ≡ s.sent sw' ++ rest'
      → promised env setup fuel version now d call
        ≡ some (perform s requests responses call (ok (cr, cw)), d')
  perform-handle_connection fuel version now call bytes rest rest' cr sr cw cw' sw sw' d d' stream
        jq jr e out to_server served to_client =
      let (response, handled, got) =
        send-handle_connection env setup s requests responses fuel version now (request_of call)
          bytes rest rest' cr sr cw cw' sw sw' d d' stream jq jr e out to_server served to_client in
      promised-handle_request env setup fuel version now d call
      ∙ ap (heard env setup (reader call)) handled
      ∙ ap (λ x. some (x, d')) (sym (performed s requests responses call cr cw response got))
