-- ===== src/Cli/Client.antt =====
-- client.rs of crates/cli: the calls that the client makes on the daemon.
pub mod Exchange
pub mod Calls
use otters.Base.{ℕ, String, Bool, true, Option, List}
use otters.Base.Result.{Result, ok, err, map_err, ◌>>=◌}
use otters.Core.Event.{Event}
use otters.Daemon.Wire.{
  Stream, Json, IoError, ProtocolError, encode, decode, read_message, write_message, from_stop,
}
use otters.Daemon.Server
use otters.Daemon.Server.{Request, Response, PipelineSummary, PipelineDetail, SessionSummary, query}

pub data ClientError : Type 0 where
  daemon_not_running : ClientError
  daemon_start_failed : String → ClientError
  daemon_start_timeout : ClientError
  protocol : ProtocolError → ClientError
  rejected : String → ClientError
  unexpected_response : ClientError
  io : IoError → ClientError
  no_project_root : ClientError
  no_state_dir : ClientError

abbrev pub Reply : Type 0 → Type 0
Reply A = Result ClientError A

-- What a call makes of a response.
abbrev pub accepted : Response → Reply (Unit {0})
accepted (Response.event true) = ok tt
accepted (Response.error message) = err (rejected message)
accepted _ = err unexpected_response

abbrev pub listed_pipelines : Response → Reply (List PipelineSummary)
listed_pipelines (Response.pipelines ps) = ok ps
listed_pipelines (Response.error message) = err (rejected message)
listed_pipelines _ = err unexpected_response

abbrev pub found_pipeline : Response → Reply (Option PipelineDetail)
found_pipeline (Response.pipeline p) = ok p
found_pipeline (Response.error message) = err (rejected message)
found_pipeline _ = err unexpected_response

abbrev pub told_status : Response → Reply (ℕ × ℕ × ℕ)
told_status (Response.status uptime pipelines sessions) = ok (uptime, pipelines, sessions)
told_status (Response.error message) = err (rejected message)
told_status _ = err unexpected_response

abbrev pub shut_down : Response → Reply (Unit {0})
shut_down Response.done = ok tt
shut_down Response.shutting_down = ok tt
shut_down (Response.error message) = err (rejected message)
shut_down _ = err unexpected_response

abbrev pub greeted : Response → Reply String
greeted (Response.hello version) = ok version
greeted (Response.error message) = err (rejected message)
greeted _ = err unexpected_response

abbrev pub listed_sessions : Response → Reply (List SessionSummary)
listed_sessions (Response.sessions ss) = ok ss
listed_sessions (Response.error message) = err (rejected message)
listed_sessions _ = err unexpected_response

abbrev pub confirmed : Response → Reply (Unit {0})
confirmed Response.done = ok tt
confirmed (Response.error message) = err (rejected message)
confirmed _ = err unexpected_response

-- The client's halves of a socket, or why it did not connect.
abbrev pub Connected : Type 0 → Type 0 → Type 0
Connected R U = Result IoError (R × U)

module _ {V R U : Type 0} (s : Stream R U) (requests : Json (Request V))
    (responses : Json Response) where
  -- `send` on the halves of a socket.
  unfoldable pub send_on : Request V → R → U → Reply Response
  unfolding encode decode read_message write_message
  send_on request r w = map_err protocol (encode requests request) >>= λ bytes.
      map_err (λ e. protocol (from_stop e)) (write_message s bytes w).0 >>= λ _.
      map_err (λ e. protocol (from_stop e)) (read_message s r).0 >>= λ bytes.
      map_err protocol (decode responses bytes)

  unfoldable pub send : Request V → Connected R U → Reply Response
  unfolding send_on
  send request (err e) = err (io e)
  send request (ok (r, w)) = send_on request r w

  unfoldable pub send_event : Event V → Connected R U → Reply (Unit {0})
  unfolding send
  send_event e c = send (Request.event e) c >>= accepted

  unfoldable pub list_pipelines : Connected R U → Reply (List PipelineSummary)
  unfolding send
  list_pipelines c = send (query Server.list_pipelines) c >>= listed_pipelines

  unfoldable pub get_pipeline : String → Connected R U → Reply (Option PipelineDetail)
  unfolding send
  get_pipeline id c = send (query (Server.get_pipeline id)) c >>= found_pipeline

  unfoldable pub status : Connected R U → Reply (ℕ × ℕ × ℕ)
  unfolding send
  status c = send Request.status c >>= told_status

  unfoldable pub shutdown : Connected R U → Reply (Unit {0})
  unfolding send
  shutdown c = send Request.shutdown c >>= shut_down

  unfoldable pub hello : String → Connected R U → Reply String
  unfolding send
  hello version c = send (Request.hello version) c >>= greeted

  unfoldable pub list_sessions : Connected R U → Reply (List SessionSummary)
  unfolding send
  list_sessions c = send (query Server.list_sessions) c >>= listed_sessions

  unfoldable pub session_send : String → String → Connected R U → Reply (Unit {0})
  unfolding send
  session_send id input c = send (Request.session_send id input) c >>= confirmed

  unfoldable pub pipeline_resume : String → Connected R U → Reply (Unit {0})
  unfolding send
  pipeline_resume id c = send (Request.pipeline_resume id) c >>= confirmed

  unfoldable pub pipeline_fail : String → String → Connected R U → Reply (Unit {0})
  unfolding send
  pipeline_fail id error c = send (Request.pipeline_fail id error) c >>= confirmed
