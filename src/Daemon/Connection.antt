-- ===== src/Daemon/Connection.antt =====
-- `handle_connection` of server.rs of crates/daemon: one request on a socket and its response.
use otters.Base.{ℕ, String, Option, none, some}
use otters.Base.Result.{Result, ok, err, map_err}
use otters.Core.Clock.{Instant}
use otters.Engine.Machine.{Env}
use otters.Engine.Runtime.{Setup}
use otters.Daemon.Lifecycle.{Daemon}
use otters.Daemon.Wire
use otters.Daemon.Wire.{
  Stream, Json, ProtocolError, connection_closed, read_request, write_response,
}
use otters.Daemon.Server.{Request, Response, handle_request}

pub data ServerError : Type 0 where
  protocol : ProtocolError → ServerError
  timeout : ServerError

-- What a connection leaves: its result, the half that was written to, and the daemon; `none` is a
-- loop that did not end within the fuel.
abbrev pub Served : Type 0 → Type 0 → Type 0
Served U W = Option (Result ServerError (Unit {0}) × U × Daemon W)

module _ {V W R U : Type 0} (env : Env V W) (setup : Setup) (s : Stream R U)
    (requests : Json (Request V)) (responses : Json Response) where
  unfoldable pub respond : U → Option (Response × Daemon W) → Served U W
  unfolding write_response
  respond w none = none
  respond w (some (response, d)) =
      let (r, w') = write_response s responses response w in some (map_err protocol r, w', d)

  unfoldable pub on_request :
      (fuel : ℕ)
      → (version : String) → (now : Instant) → U
      → Daemon W
      → Result ProtocolError (Request V)
      → Served U W
  unfolding handle_request respond
  on_request fuel version now w d (ok request) =
      respond w (handle_request env setup fuel version now d request)
  on_request fuel version now w d (err Wire.timeout) = some (err timeout, w, d)
  on_request fuel version now w d (err connection_closed) = some (ok tt, w, d)
  on_request fuel version now w d (err e) = some (err (protocol e), w, d)

  unfoldable pub handle_connection :
      (fuel : ℕ) → (version : String) → (now : Instant) → R → U → Daemon W → Served U W
  unfolding read_request on_request
  handle_connection fuel version now r w d =
      on_request fuel version now w d (read_request s requests r)
