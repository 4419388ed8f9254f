-- ===== src/Examples/Wire.antt =====
-- The theorems on messages, on a stream that keeps its bytes in memory.
use otters.Base.{
  ℕ, zero, suc, true, ◌<◌, ◌≢◌, false, String, ◌≡◌, refl, sym, ap, Option, none, some, List, [],
  ◌∷◌, ◌++◌, arith,
}
use otters.Base.Lists.{length}
use otters.Base.Result.{Result, ok, err}
use otters.Base.Exec.{◌>>=◌, mapping}
use otters.Daemon.Lifecycle.{Daemon}
use otters.Daemon.Wire.{
  Stream, IsStream, Stop, fails, IoError, unexpected_eof, Json, IsJson, write_message, read_message,
  encode, max_message_size,
}
use otters.Daemon.Wire.Framing.{frame, read_message-write_message}
use otters.Daemon.Wire.Truncated.{Fails, read_message-truncated}
use otters.Daemon.Server.{Request, Response, handle_request}
use otters.Daemon.Connection.{handle_connection}
use otters.Cli.Client.{send_on}
use otters.Cli.Client.Exchange.{send-handle_connection}
use otters.Cli.Client.Calls.{shutdown, perform, promised, perform-handle_connection}
use otters.Engine.Scheduler
use otters.Examples.World.{env, setup}
use otters.Examples.Ends.{machine}

more : ℕ → Option (List ℕ × List ℕ) → Option (List ℕ × List ℕ)
more x none = none
more x (some (xs, rest)) = some (x ∷ xs, rest)

take_exact : ℕ → List ℕ → Option (List ℕ × List ℕ)
unfolding more
take_exact zero r = some ([], r)
take_exact (suc n) [] = none
take_exact (suc n) (x ∷ r) = more x (take_exact n r)

abbrev taken : List ℕ → Option (List ℕ × List ℕ) → Result (Stop IoError) (List ℕ) × List ℕ
taken r none = (err (fails unexpected_eof), r)
taken r (some (xs, rest)) = (ok xs, rest)

memory : Stream (List ℕ) (List ℕ)
unfolding take_exact
memory = record {
  read_exact = λ n r. taken r (take_exact n r);
  write_all = λ d w. (ok tt, w ++ d);
  flush = λ w. (ok tt, w);
  unread = λ r. r;
  sent = λ w. w;
}

take_front : (xs rest : List ℕ) → take_exact (length xs) (xs ++ rest) ≡ some (xs, rest)
unfolding take_exact
take_front [] rest = refl
take_front (x ∷ xs) rest = rw (take_front xs rest) refl

Exact : ℕ → Option (List ℕ × List ℕ) → Type 0
Exact n none = Unit
Exact n (some (xs, rest)) = length xs ≡ n

more-Exact : (x n : ℕ) (o : Option (List ℕ × List ℕ)) → Exact n o → Exact (suc n) (more x o)
unfolding more Exact
more-Exact x n none h = tt
more-Exact x n (some (xs, rest)) h = ap suc h

take_exact-Exact : (n : ℕ) (r : List ℕ) → Exact n (take_exact n r)
unfolding take_exact Exact
take_exact-Exact zero r = refl
take_exact-Exact (suc n) [] = tt
take_exact-Exact (suc n) (x ∷ r) = more-Exact x n (take_exact n r) (take_exact-Exact n r)

taken-Exact :
    (n : ℕ) (r r' xs : List ℕ) (o : Option (List ℕ × List ℕ))
    → Exact n o
    → taken r o ≡ (ok xs, r')
    → length xs ≡ n
unfolding Exact
taken-Exact n r r' xs none h e = absurd (cc (ap (λ x. x.0) e))
taken-Exact n r r' xs (some (ys, rest)) h e = cc (ap (λ x. x.0) e, h)

take_short : (n : ℕ) (r : List ℕ) → length r < n → take_exact n r ≡ none
unfolding take_exact
take_short zero r h = absurd (omega (arith, h))
take_short (suc n) [] h = refl
take_short (suc n) (x ∷ r) h = rw (take_short n r (omega (arith, h))) refl

memory-IsStream : IsStream memory
unfolding memory
memory-IsStream = record {
  reads = λ r xs rest u. (rest, rw (u, take_front xs rest) refl, refl);
  exact = λ n r r' xs e. taken-Exact n r r' xs (take_exact n r) (take_exact-Exact n r) e;
  short = λ n r h. (fails unexpected_eof, rw (take_short n r h) refl);
  writes = λ d w w' e. ap (λ x. x.1) (sym e);
  flushes = λ w w' e. ap (λ x. x.1) (sym e);
}

-- JSON for one message: a text that stands for `a`.
stop_json : Request (Unit {0}) → Result String (List ℕ)
stop_json Request.shutdown = ok (112 ∷ [])
stop_json _ = err "unsupported"

requests : Json (Request (Unit {0}))
unfolding stop_json
requests = record { to_vec = stop_json; from_slice = λ bytes. ok Request.shutdown }

stopped_json : Response → Result String (List ℕ)
stopped_json Response.shutting_down = ok (113 ∷ [])
stopped_json _ = err "unsupported"

responses : Json Response
unfolding stopped_json
responses = record { to_vec = stopped_json; from_slice = λ bytes. ok Response.shutting_down }

stop_inverse :
    (r : Request (Unit {0})) (bytes : List ℕ) → stop_json r ≡ ok bytes → Request.shutdown ≡ r
unfolding stop_json
stop_inverse Request.shutdown bytes h = refl
stop_inverse (Request.hello v) bytes h = absurd (cc h)
stop_inverse (Request.event e) bytes h = absurd (cc h)
stop_inverse (Request.query q) bytes h = absurd (cc h)
stop_inverse Request.ping bytes h = absurd (cc h)
stop_inverse Request.status bytes h = absurd (cc h)
stop_inverse (Request.session_send id input) bytes h = absurd (cc h)
stop_inverse (Request.pipeline_resume id) bytes h = absurd (cc h)
stop_inverse (Request.pipeline_fail id error) bytes h = absurd (cc h)

stopped_inverse :
    (r : Response) (bytes : List ℕ) → stopped_json r ≡ ok bytes → Response.shutting_down ≡ r
unfolding stopped_json
stopped_inverse Response.done bytes h = absurd (cc h)
stopped_inverse Response.shutting_down bytes h = refl
stopped_inverse (Response.hello v) bytes h = absurd (cc h)
stopped_inverse Response.pong bytes h = absurd (cc h)
stopped_inverse (Response.event a) bytes h = absurd (cc h)
stopped_inverse (Response.pipelines ps) bytes h = absurd (cc h)
stopped_inverse (Response.pipeline p) bytes h = absurd (cc h)
stopped_inverse (Response.sessions ss) bytes h = absurd (cc h)
stopped_inverse (Response.status u p s) bytes h = absurd (cc h)
stopped_inverse (Response.error m) bytes h = absurd (cc h)

requests-IsJson : IsJson requests
unfolding requests
requests-IsJson = record { inverse = λ r bytes h. ap ok (stop_inverse r bytes h) }

responses-IsJson : IsJson responses
unfolding responses
responses-IsJson = record { inverse = λ r bytes h. ap ok (stopped_inverse r bytes h) }

abbrev daemon : Daemon (Unit {0})
daemon = record {
  machine = machine "build";
  scheduler = Scheduler.init;
  start_time = 0;
  shutdown_requested = false;
}

abbrev stopped : Daemon (Unit {0})
stopped = record daemon { shutdown_requested = true }

abbrev request_frame : List ℕ
request_frame = 0 ∷ 0 ∷ 0 ∷ 1 ∷ 112 ∷ []

abbrev response_frame : List ℕ
response_frame = 0 ∷ 0 ∷ 0 ∷ 1 ∷ 113 ∷ []

written : write_message memory (112 ∷ []) [] ≡ (ok tt, request_frame)
unfolding write_message memory ◌>>=◌ mapping
written = refl

encoded : encode requests Request.shutdown ≡ ok (112 ∷ [])
unfolding encode requests
encoded = refl

served :
    handle_connection env setup memory requests responses 5 "0.1" 9 request_frame [] daemon
    ≡ some (ok tt, response_frame, stopped)
unfolding handle_connection memory requests responses ◌>>=◌ mapping
served = refl

joined :
    memory.sent [] ++ memory.unread (request_frame ++ 7 ∷ []) ≡ memory.sent request_frame ++ 7 ∷ []
unfolding memory
joined = refl

to_server : memory.sent [] ++ memory.unread request_frame ≡ memory.sent request_frame ++ []
unfolding memory
to_server = refl

to_client : memory.sent [] ++ memory.unread response_frame ≡ memory.sent response_frame ++ []
unfolding memory
to_client = refl

read_message-write_message_example :
    (r' : List ℕ) × (read_message memory (request_frame ++ 7 ∷ []) ≡ (ok (112 ∷ []), r'))
    × (memory.unread r' ≡ 7 ∷ [])
read_message-write_message_example =
    read_message-write_message memory memory-IsStream (112 ∷ []) (7 ∷ []) [] request_frame
      (request_frame ++ 7 ∷ []) written joined

send-handle_connection_example :
    (response : Response) × (handle_request env setup 5 "0.1" 9 daemon Request.shutdown
      ≡ some (response, stopped))
    × (send_on memory requests responses Request.shutdown response_frame [] ≡ ok response)
send-handle_connection_example =
    send-handle_connection env setup memory requests responses 5 "0.1" 9 Request.shutdown (112 ∷ [])
      [] [] response_frame request_frame [] request_frame [] response_frame daemon stopped
      memory-IsStream requests-IsJson responses-IsJson encoded written to_server served to_client

perform-handle_connection_example :
    promised env setup 5 "0.1" 9 daemon shutdown
    ≡ some (perform memory requests responses shutdown (ok (response_frame, [])), stopped)
perform-handle_connection_example =
    perform-handle_connection env setup memory requests responses 5 "0.1" 9 shutdown (112 ∷ []) []
      [] response_frame request_frame [] request_frame [] response_frame daemon stopped
      memory-IsStream requests-IsJson responses-IsJson encoded written to_server served to_client

abbrev missing : List ℕ
missing = 105 ∷ []

cut_off : frame (112 ∷ 105 ∷ []) ≡ (0 ∷ 0 ∷ 0 ∷ 2 ∷ 112 ∷ []) ++ missing
unfolding frame otters.Daemon.Wire.to_be_bytes
cut_off = refl

something : missing ≢ []
something = λ e. cc

come_in : memory.unread (0 ∷ 0 ∷ 0 ∷ 2 ∷ 112 ∷ []) ≡ 0 ∷ 0 ∷ 0 ∷ 2 ∷ 112 ∷ []
unfolding memory
come_in = refl

read_message-truncated_example : Fails (read_message memory) (0 ∷ 0 ∷ 0 ∷ 2 ∷ 112 ∷ [])
read_message-truncated_example =
    read_message-truncated memory memory-IsStream (112 ∷ 105 ∷ []) (0 ∷ 0 ∷ 0 ∷ 2 ∷ 112 ∷ [])
      missing (0 ∷ 0 ∷ 0 ∷ 2 ∷ 112 ∷ []) (omega arith) come_in cut_off something
