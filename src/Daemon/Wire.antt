-- ===== src/Daemon/Wire.antt =====
-- protocol.rs of crates/daemon: how messages are framed on the socket. The stream and JSON are
-- parameters: tokio's and serde_json's documented behaviour is stated as laws.
pub mod Framing
pub mod Truncated
pub mod Messages
use otters.Base.{
  ℕ, ◌+◌, ◌*◌, ◌/◌, ◌%◌, ◌^◌, ◌≤◌, ◌<◌, String, ◌≡◌, List, [], ◌∷◌, ◌++◌, ltb, if◌then◌else◌,
}
use otters.Base.Lists.{length}
use otters.Base.Result.{Result, ok, err, map_err}
use otters.Base.Result
use otters.Base.Exec.{Exec, ◌>>=◌, ◌>>◌, pure, raise, mapping}

pub data IoError : Type 0 where
  unexpected_eof : IoError
  other : (message : String) → IoError

pub data ProtocolError : Type 0 where
  io : IoError → ProtocolError
  json : (message : String) → ProtocolError
  message_too_large : (size max : ℕ) → ProtocolError
  connection_closed : ProtocolError
  timeout : ProtocolError

-- How a call on a stream ends without a value: it fails, or it waits for longer than its timeout.
pub data Stop (E : Type 0) : Type 0 where
  fails : E → Stop E
  waits : Stop E

-- The two halves of a socket. `unread` are the bytes that come in before the stream ends, and
-- `sent` those that went out.
pub record Stream (R W : Type 0) : Type 0 where
  pub read_exact : ℕ → Exec R (Stop IoError) (List ℕ)
  pub write_all : List ℕ → Exec W (Stop IoError) (Unit {0})
  pub flush : Exec W (Stop IoError) (Unit {0})
  pub unread : R → List ℕ
  pub sent : W → List ℕ

pub record IsStream {R W : Type 0} (s : Stream R W) : Type 0 where
  -- A read of as many bytes as have come in returns them and leaves the others.
  pub reads :
      (r : R) (xs rest : List ℕ)
      → s.unread r ≡ xs ++ rest
      → (r' : R) × (s.read_exact (length xs) r ≡ (ok xs, r')) × (s.unread r' ≡ rest)
  pub exact : (n : ℕ) (r r' : R) (xs : List ℕ) → s.read_exact n r ≡ (ok xs, r') → length xs ≡ n
  -- A read of more bytes than come in never succeeds.
  pub short :
      (n : ℕ) (r : R)
      → length (s.unread r) < n
      → (e : Stop IoError) × ((s.read_exact n r).0 ≡ err e)
  pub writes : (d : List ℕ) (w w' : W) → s.write_all d w ≡ (ok tt, w') → s.sent w' ≡ s.sent w ++ d
  pub flushes : (w w' : W) → s.flush w ≡ (ok tt, w') → s.sent w' ≡ s.sent w

-- `serde_json::to_vec` and `from_slice`, for a type of messages.
pub record Json (A : Type 0) : Type 0 where
  pub to_vec : A → Result String (List ℕ)
  pub from_slice : List ℕ → Result String A

pub record IsJson {A : Type 0} (j : Json A) : Type 0 where
  pub inverse : (a : A) (bytes : List ℕ) → j.to_vec a ≡ ok bytes → j.from_slice bytes ≡ ok a

abbrev pub max_message_size : ℕ
max_message_size = 209715200

abbrev checked_size : List ℕ → Result ProtocolError (List ℕ)
checked_size bytes =
    if ltb max_message_size (length bytes)
    then err (message_too_large (length bytes) max_message_size)
    else ok bytes

unfoldable pub encode : {A : Type 0} → Json A → A → Result ProtocolError (List ℕ)
encode j msg = Result.◌>>=◌ (map_err json (j.to_vec msg)) checked_size

unfoldable pub decode : {A : Type 0} → Json A → List ℕ → Result ProtocolError A
decode j bytes = map_err json (j.from_slice bytes)

-- `(n as u32).to_be_bytes()`
unfoldable pub to_be_bytes : ℕ → List ℕ
to_be_bytes n =
    let m = n % 2 ^ 32 in m / 2 ^ 24 ∷ m / 2 ^ 16 % 2 ^ 8 ∷ m / 2 ^ 8 % 2 ^ 8 ∷ m % 2 ^ 8 ∷ []

-- `u32::from_be_bytes(buf)`, on the four bytes of a buffer.
unfoldable pub from_be_bytes : List ℕ → ℕ
from_be_bytes (a ∷ b ∷ c ∷ d ∷ []) = a * 2 ^ 24 + b * 2 ^ 16 + c * 2 ^ 8 + d
from_be_bytes _ = 0

abbrev pub Wait : Type 0 → Type 0 → Type 0
Wait S A = Exec S (Stop ProtocolError) A

-- `?` from an error of the stream to one of the protocol.
abbrev pub from_io : Stop IoError → Stop ProtocolError
from_io (fails e) = fails (io e)
from_io waits = waits

-- The same, but where the length should stand.
abbrev pub from_eof : Stop IoError → Stop ProtocolError
from_eof (fails unexpected_eof) = fails connection_closed
from_eof (fails (other message)) = fails (io (other message))
from_eof waits = waits

module _ {R W : Type 0} (s : Stream R W) where
  unfoldable pub read_payload : ℕ → Wait R (List ℕ)
  read_payload len =
      if ltb max_message_size len
      then raise (fails (message_too_large len max_message_size))
      else mapping from_io (s.read_exact len)

  unfoldable pub read_message : Wait R (List ℕ)
  unfolding read_payload from_be_bytes
  read_message = mapping from_eof (s.read_exact 4) >>= λ buf. read_payload (from_be_bytes buf)

  unfoldable pub write_message : List ℕ → Wait W (Unit {0})
  unfolding to_be_bytes
  write_message d =
      if ltb max_message_size (length d)
      then raise (fails (message_too_large (length d) max_message_size))
      else mapping from_io (s.write_all (to_be_bytes (length d)))
        >> mapping from_io (s.write_all d)
        >> mapping from_io s.flush

-- `tokio::time::timeout(..).await.map_err(|_| ProtocolError::Timeout)??`
abbrev pub from_stop : Stop ProtocolError → ProtocolError
from_stop (fails e) = e
from_stop waits = timeout

module _ {R W A : Type 0} (s : Stream R W) (j : Json A) where
  -- `read_request`, for the type of the requests.
  unfoldable pub read_request : R → Result ProtocolError A
  unfolding read_message decode
  read_request r = Result.◌>>=◌ (map_err from_stop (read_message s r).0) (decode j)

  abbrev pub write_encoded : Result ProtocolError (List ℕ) → W → Result ProtocolError (Unit {0}) × W
  write_encoded (err e) w = (err e, w)
  write_encoded (ok bytes) w = let (r, w') = write_message s bytes w in (map_err from_stop r, w')

  -- `write_response`, for the type of the responses.
  unfoldable pub write_response : A → W → Result ProtocolError (Unit {0}) × W
  unfolding write_message encode
  write_response msg w = write_encoded (encode j msg) w
