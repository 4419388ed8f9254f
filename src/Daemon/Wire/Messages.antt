-- ===== src/Daemon/Wire/Messages.antt =====
-- Messages that go through JSON and a frame, from one end of the stream to the other.
use otters.Base.{ℕ, String, ◌≡◌, refl, ap, ◌∙◌, List, ◌++◌, ltb, Bool-cases, inl, inr}
use otters.Base.Lists.{length}
use otters.Base.Result.{Result, ok, err, map_err}
use otters.Base.Result
use otters.Base.Exec.{map_err-ok}
use otters.Daemon.Wire.{
  Stream, IsStream, Json, IsJson, ProtocolError, json, max_message_size, checked_size, encode,
  decode, from_stop, read_message, write_message, read_request, write_encoded, write_response,
}
use otters.Daemon.Wire.Framing.{read_message-write_message}

module _ {A : Type 0} (j : Json A) (h : IsJson j) where
  checked_size-ok : (size bytes : List ℕ) → checked_size size ≡ ok bytes → size ≡ bytes
  checked_size-ok size bytes e = elim (Bool-cases (ltb max_message_size (length size))) [
    | inl y ↦ absurd (cc (rw y at e))
    | inr n ↦ cc (rw n at e)
  ]

  encoded :
      (r : Result String (List ℕ)) (bytes : List ℕ)
      → Result.◌>>=◌ (map_err json r) checked_size ≡ ok bytes
      → r ≡ ok bytes
  encoded (ok size) bytes e = ap ok (checked_size-ok size bytes e)
  encoded (err m) bytes e = absurd (cc e)

  -- What was encoded is decoded.
  pub decode-encode : (msg : A) (bytes : List ℕ) → encode j msg ≡ ok bytes → decode j bytes ≡ ok msg
  unfolding encode decode
  decode-encode msg bytes e =
      ap (map_err json) (h.inverse msg bytes (encoded (j.to_vec msg) bytes e))

module _ {R W A : Type 0} (s : Stream R W) (j : Json A) (stream : IsStream s)
    (inverse : IsJson j) where
  -- A message that was encoded and written is read at the other end.
  pub message_read :
      (msg : A) (bytes rest : List ℕ) (w w' : W) (r : R)
      → encode j msg ≡ ok bytes
      → write_message s bytes w ≡ (ok tt, w')
      → s.sent w ++ s.unread r ≡ s.sent w' ++ rest
      → ((read_message s r).0 ≡ ok bytes) × (decode j bytes ≡ ok msg)
  message_read msg bytes rest w w' r e written u =
      let (r', got, _) = read_message-write_message s stream bytes rest w w' r written u in
      (ap (λ x. x.0) got, decode-encode j inverse msg bytes e)

module _ {R W A : Type 0} (s : Stream R W) (j : Json A) where
  written_by :
      (o : Result ProtocolError (List ℕ)) (w w' : W)
      → write_encoded s j o w ≡ (ok tt, w')
      → (bytes : List ℕ) × (o ≡ ok bytes) × (write_message s bytes w ≡ (ok tt, w'))
  written_by (err m) w w' e = absurd (cc (ap (λ x. x.0) e))
  written_by (ok bytes) w w' e = (
    bytes,
    refl,
    cc (map_err-ok from_stop (write_message s bytes w).0 tt (ap (λ x. x.0) e), ap (λ x. x.1) e),
  )

  -- A response that was written went through its encoding.
  pub write_response-written :
      (msg : A) (w w' : W)
      → write_response s j msg w ≡ (ok tt, w')
      → (bytes : List ℕ) × (encode j msg ≡ ok bytes) × (write_message s bytes w ≡ (ok tt, w'))
  unfolding write_response
  write_response-written msg w w' e = written_by (encode j msg) w w' e

  pub read_request-read :
      (msg : A) (bytes : List ℕ) (r : R)
      → (read_message s r).0 ≡ ok bytes
      → decode j bytes ≡ ok msg
      → read_request s j r ≡ ok msg
  unfolding read_request
  read_request-read msg bytes r got e =
      ap (λ x. Result.◌>>=◌ (map_err from_stop x) (decode j)) got ∙ e
