-- ===== src/Daemon/Wire/Framing.antt =====
-- What is read from a stream on which a message was written.
use otters.Base.{ℕ, ◌≤◌, ◌≡◌, refl, ap, ◌∙◌, List, ◌++◌, ltb, Bool-cases, inl, inr, arith}
use otters.Base.Lists.{length, append_assoc, append_cancel}
use otters.Base.Result.{ok}
use otters.Base.Exec.{◌>>◌, mapping, mapping-ok, mapping_returns, bind_returns, bind-ok, raise}
use otters.Daemon.Wire.{
  Stream, IsStream, max_message_size, to_be_bytes, from_be_bytes, from_io, from_eof, read_message,
  read_payload, write_message,
}

pub from_be_bytes-to_be_bytes : (n : ℕ) → n ≤ max_message_size → from_be_bytes (to_be_bytes n) ≡ n
unfolding from_be_bytes to_be_bytes
from_be_bytes-to_be_bytes n h = omega (arith, h)

-- The bytes of a message on the stream.
unfoldable pub frame : List ℕ → List ℕ
frame d = to_be_bytes (length d) ++ d

module _ {R W : Type 0} (s : Stream R W) (h : IsStream s) where
  payload_read :
      (d rest : List ℕ) (r : R)
      → length d ≤ max_message_size
      → s.unread r ≡ d ++ rest
      → (r' : R) × (read_payload s (length d) r ≡ (ok d, r')) × (s.unread r' ≡ rest)
  unfolding read_payload mapping
  payload_read d rest r small u =
      let (r', e, left) = h.reads r d rest u in
      elim (Bool-cases (ltb max_message_size (length d))) [
        | inl y ↦ absurd (ground (arith, small, y))
        | inr n ↦ rw (n, e) (r', refl, left)
      ]

  -- A message whose frame comes in is read, and what comes after it is left.
  pub frame_read :
      (d rest : List ℕ) (r : R)
      → length d ≤ max_message_size
      → s.unread r ≡ frame d ++ rest
      → (r' : R) × (read_message s r ≡ (ok d, r')) × (s.unread r' ≡ rest)
  unfolding read_message frame to_be_bytes
  frame_read d rest r small u =
      let prefix = to_be_bytes (length d) in
      let (r', e, left) = h.reads r prefix (d ++ rest) (u ∙ append_assoc prefix d rest) in
      let (r'', e', left') = payload_read d rest r' small left in
      (
        r'',
        bind_returns _ (λ buf. read_payload s (from_be_bytes buf)) prefix d r r' r''
            (mapping_returns from_eof (s.read_exact 4) prefix r r' e)
            (rw (from_be_bytes-to_be_bytes (length d) small) e'),
        left',
      )

  payload_max :
      (n : ℕ) (d : List ℕ) (r r' : R)
      → read_payload s n r ≡ (ok d, r')
      → length d ≤ max_message_size
  unfolding read_payload raise
  payload_max n d r r' e = elim (Bool-cases (ltb max_message_size n)) [
    | inl y ↦ absurd (cc (ap (λ x. x.0) (rw (y, read_payload) at e)))
    | inr n_small ↦ ground (
      arith,
      n_small,
      h.exact n r r' d
          (mapping-ok from_io (s.read_exact n) d r r' (rw (n_small, read_payload) at e)),
    )
  ]

  parts_sent :
      (d : List ℕ) (w w' : W)
      → (mapping from_io (s.write_all (to_be_bytes (length d)))
            >> mapping from_io (s.write_all d)
            >> mapping from_io s.flush)
          w
        ≡ (ok tt, w')
      → s.sent w' ≡ s.sent w ++ frame d
  unfolding frame
  parts_sent d w w' e =
      let size = mapping from_io (s.write_all (to_be_bytes (length d))) in
      let body = mapping from_io (s.write_all d) in
      let end = mapping from_io s.flush in
      let (_, both, flushed) = bind-ok (size >> body) (λ _. end) tt w w' e in
      let (_, sized, written) = bind-ok size (λ _. body) tt w ((size >> body) w).1 both in
      h.flushes _ w' (mapping-ok from_io s.flush tt _ w' flushed)
      ∙ h.writes d _ _ (mapping-ok from_io (s.write_all d) tt _ _ written)
      ∙ ap (λ x. x ++ d) (h.writes _ w _ (mapping-ok from_io (s.write_all _) tt w _ sized))
      ∙ append_assoc (s.sent w) (to_be_bytes (length d)) d

  write_sent :
      (d : List ℕ) (w w' : W)
      → write_message s d w ≡ (ok tt, w')
      → (length d ≤ max_message_size) × (s.sent w' ≡ s.sent w ++ frame d)
  unfolding write_message raise
  write_sent d w w' e = elim (Bool-cases (ltb max_message_size (length d))) [
    | inl y ↦ absurd (cc (ap (λ x. x.0) (rw (y, write_message) at e)))
    | inr n ↦ (ground (arith, n), parts_sent d w w' (rw (n, write_message) at e))
  ]

  -- If a message is written, then a reader that gets what this put on the stream, whatever comes
  -- after it, reads that message and leaves what comes after it.
  pub read_message-write_message :
      (d rest : List ℕ) (w w' : W) (r : R)
      → write_message s d w ≡ (ok tt, w')
      → s.sent w ++ s.unread r ≡ s.sent w' ++ rest
      → (r' : R) × (read_message s r ≡ (ok d, r')) × (s.unread r' ≡ rest)
  read_message-write_message d rest w w' r e u =
      let (small, grown) = write_sent d w w' e in
      frame_read d rest r small (
        append_cancel (s.sent w) (s.unread r) (frame d ++ rest)
          (u ∙ ap (λ x. x ++ rest) grown ∙ append_assoc (s.sent w) (frame d) rest))

  -- A message that is read has at most `MAX_MESSAGE_SIZE` bytes, whatever comes in.
  pub read_message-max :
      (d : List ℕ) (r r' : R) → read_message s r ≡ (ok d, r') → length d ≤ max_message_size
  unfolding read_message read_payload
  read_message-max d r r' e =
      let (buf, _, payload) = bind-ok _ (λ buf. read_payload s (from_be_bytes buf)) d r r' e in
      payload_max (from_be_bytes buf) d _ r' payload
