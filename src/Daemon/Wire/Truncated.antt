-- ===== src/Daemon/Wire/Truncated.antt =====
-- What is read from a stream that ends within a message.
use otters.Base.{
  ℕ, ◌≤◌, ◌<◌, ◌≡◌, ◌≢◌, refl, sym, ap, ◌∙◌, subst, List, [], ◌∷◌, ◌++◌, ltb, Bool-cases, inl, inr,
  arith,
}
use otters.Base.Lists.{length, length-append}
use otters.Base.Result.{ok, err, map_err}
use otters.Base.Exec.{Exec, continue, mapping, mapping_returns, bind-err, ◌>>=◌, raise}
use otters.Daemon.Wire.{
  Stream, IsStream, max_message_size, to_be_bytes, from_be_bytes, from_io, from_eof, read_message,
  read_payload,
}
use otters.Daemon.Wire.Framing.{frame, from_be_bytes-to_be_bytes}

abbrev pub Fails : {S E A : Type 0} → Exec S E A → S → Type 0
Fails {S} {E} m s = (e : E) × ((m s).0 ≡ err e)

length-nonempty : (xs : List ℕ) → xs ≢ [] → 1 ≤ length xs
length-nonempty [] h = absurd (h refl)
length-nonempty (x ∷ xs) h = omega arith

module _ {S E F A : Type 0} where
  mapping-Fails : (f : E → F) (m : Exec S E A) (s : S) → Fails m s → Fails (mapping f m) s
  unfolding mapping
  mapping-Fails f m s (e, h) = (f e, ap (map_err f) h)

module _ {S E A B : Type 0} where
  bind-Fails :
      (m : Exec S E A) (f : A → Exec S E B) (s t : S) (a : A)
      → m s ≡ (ok a, t)
      → Fails (f a) t
      → Fails (m >>= f) s
  unfolding ◌>>=◌
  bind-Fails m f s t a h (e, g) = (e, ap (λ x. (continue x.0 f x.1).0) h ∙ g)

module _ {R W : Type 0} (s : Stream R W) (h : IsStream s) where
  payload_short : (n : ℕ) (r : R) → length (s.unread r) < n → Fails (read_payload s n) r
  unfolding read_payload raise
  payload_short n r less = elim (Bool-cases (ltb max_message_size n)) [
    | inl y ↦ rw (y, read_payload) (_, refl)
    | inr m ↦ rw (m, read_payload) (mapping-Fails from_io (s.read_exact n) r (h.short n r less))
  ]

  size_short : (r : R) → length (s.unread r) < 4 → Fails (read_message s) r
  unfolding read_message
  size_short r less =
      let (e, stopped) = mapping-Fails from_eof (s.read_exact 4) r (h.short 4 r less) in
      (e, bind-err (mapping from_eof (s.read_exact 4)) _ e r stopped)

  -- A message of which a part has not come in when the stream ends is not read: the result is an
  -- error. The message is one that may be written.
  pub read_message-truncated :
      (d first missing : List ℕ) (r : R)
      → length d ≤ max_message_size
      → s.unread r ≡ first
      → frame d ≡ first ++ missing
      → missing ≢ []
      → Fails (read_message s) r
  unfolding read_message frame to_be_bytes
  read_message-truncated d [] missing r small u f part = size_short r (omega (arith, ap length u))
  read_message-truncated d (a ∷ []) missing r small u f part =
      size_short r (omega (arith, ap length u))
  read_message-truncated d (a ∷ b ∷ []) missing r small u f part =
      size_short r (omega (arith, ap length u))
  read_message-truncated d (a ∷ b ∷ c ∷ []) missing r small u f part =
      size_short r (omega (arith, ap length u))
  read_message-truncated d (a ∷ b ∷ c ∷ e ∷ first) missing r small u f part =
      let size : to_be_bytes (length d) ≡ a ∷ b ∷ c ∷ e ∷ [] = cc f in
      let rest : d ≡ first ++ missing = cc f in
      let (r', got, left) = h.reads r (a ∷ b ∷ c ∷ e ∷ []) first u in
      let told : from_be_bytes (a ∷ b ∷ c ∷ e ∷ []) ≡ length d =
        ap from_be_bytes (sym size) ∙ from_be_bytes-to_be_bytes (length d) small in
      let less : length (s.unread r') < length d = omega (
        arith,
        ap length left,
        ap length rest,
        length-append first missing,
        length-nonempty missing part,
      ) in
      bind-Fails (mapping from_eof (s.read_exact 4)) (λ buf. read_payload s (from_be_bytes buf)) r
        r' (a ∷ b ∷ c ∷ e ∷ []) (mapping_returns from_eof (s.read_exact 4) _ r r' got)
        (subst (λ n. Fails (read_payload s n) r') (sym told) (payload_short (length d) r' less))
