-- ===== src/Cli/Client/Exchange.antt =====
-- A request of the client and the connection that the daemon handles for it, end to end.
use otters.Base.{ℕ, String, ◌≡◌, refl, ap, Option, none, some, List, ◌++◌}
use otters.Base.Result.{ok}
use mathlib.Core.Option.{some-injective}
use otters.Base.Exec.{map_err-ok}
use otters.Core.Clock.{Instant}
use otters.Engine.Machine.{Env}
use otters.Engine.Runtime.{Setup}
use otters.Daemon.Lifecycle.{Daemon}
use otters.Daemon.Wire.{
  Stream, IsStream, Json, IsJson, encode, decode, read_message, write_message, write_response,
}
use otters.Daemon.Wire.Messages.{message_read, write_response-written, read_request-read}
use otters.Daemon.Server.{Request, Response, handle_request}
use otters.Daemon.Connection.{ServerError, respond, handle_connection}
use otters.Cli.Client.{send_on}

module _ {V W R U : Type 0} (env : Env V W) (setup : Setup) (s : Stream R U)
    (requests : Json (Request V)) (responses : Json Response) where
  responded :
      (o : Option (Response × Daemon W)) (w w' : U) (d' : Daemon W)
      → respond env setup s requests responses w o ≡ some (ok tt, w', d')
      → (response : Response) × (bytes : List ℕ) × (o ≡ some (response, d'))
        × (encode responses response ≡ ok bytes)
        × (write_message s bytes w ≡ (ok tt, w'))
  unfolding respond
  responded none w w' d' e = absurd (cc e)
  responded (some (response, d)) w w' d' e =
      let same = some-injective _ _ e in
      let (bytes, enc, out) = write_response-written s responses response w w' (
        cc (
          map_err-ok ServerError.protocol (write_response s responses response w).0 tt
              (ap (λ x. x.0) same),
          ap (λ x. x.1) same,
        )) in
      (response, bytes, ap (λ x. some (response, x.2)) same, enc, out)

  sent_on :
      (request : Request V) (response : Response) (bytes bytes' : List ℕ) (r : R) (w : U)
      → encode requests request ≡ ok bytes
      → (write_message s bytes w).0 ≡ ok tt
      → (read_message s r).0 ≡ ok bytes'
      → decode responses bytes' ≡ ok response
      → send_on s requests responses request r w ≡ ok response
  unfolding send_on
  sent_on request response bytes bytes' r w e written got dec = rw (e, written, got, dec) refl

  -- The client's request reaches the daemon, and the client gets the daemon's response to it: what
  -- the two ends wrote arrives, the encodings are inverse to the decodings, and both writes succeed.
  pub send-handle_connection :
      (fuel : ℕ) (version : String) (now : Instant) (request : Request V)
      (bytes rest rest' : List ℕ) (cr sr : R) (cw cw' sw sw' : U) (d d' : Daemon W)
      → IsStream s
      → IsJson requests
      → IsJson responses
      → encode requests request ≡ ok bytes
      → write_message s bytes cw ≡ (ok tt, cw')
      → s.sent cw ++ s.unread sr ≡ s.sent cw' ++ rest
      → handle_connection env setup s requests responses fuel version now sr sw d
        ≡ some (ok tt, sw', d')
      → s.sent sw ++ s.unread cr ≡ s.sent sw' ++ rest'
      → (response : Response) × (handle_request env setup fuel version now d request
          ≡ some (response, d'))
        × (send_on s requests responses request cr cw ≡ ok response)
  unfolding handle_connection
  send-handle_connection fuel version now request bytes rest rest' cr sr cw cw' sw sw' d d' stream
        jq jr e out to_server served to_client =
      let (got, dec) =
        message_read s requests stream jq request bytes rest cw cw' sr e out to_server in
      let read = read_request-read s requests request bytes sr got dec in
      let (response, bytes', handled, e', out') =
        responded (handle_request env setup fuel version now d request) sw sw' d'
          (rw read at served) in
      let (got', dec') =
        message_read s responses stream jr response bytes' rest' sw sw' cr e' out' to_client in
      (
        response,
        handled,
        sent_on request response bytes bytes' cr cw e (ap (λ x. x.0) out) got' dec',
      )
