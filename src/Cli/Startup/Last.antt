-- ===== src/Cli/Startup/Last.antt =====
-- Which errors of the daemon's log a client tells of, and how often it wraps them.
use text.Mathlib.TextLemmas.{cons-append, nil-append}
use otters.Base.{String, ◌≡◌, refl, sym, ap, ◌∙◌, some, Option-cases, inl, inr}
use otters.Base.Lists.{filter}
use otters.Base.Text.{◌<>◌, lines}
use otters.Cli.Client.{
  ClientError, daemon_not_running, daemon_start_failed, daemon_start_timeout, protocol, rejected,
  unexpected_response, io, no_project_root, no_state_dir,
}
use otters.Cli.System.{System, and_then}
use otters.Cli.Startup.{
  startup_marker_prefix, or_whole, last_from, startup_error_in, report, is_error,
  read_startup_error, explained, wrap_with_startup_error,
}

last_from-append :
    (marker old log rest : String)
    → last_from marker log ≡ some rest
    → last_from marker (old <> log) ≡ some rest
unfolding last_from
last_from-append marker String.[] log rest h = rw nil-append h
last_from-append marker (String.◌∷◌ c old) log rest h = rw cons-append (
    ap (λ o. or_whole o (String.◌∷◌ c (old <> log)) marker)
      (last_from-append marker old log rest h))

-- If the log of the latest start has its marker, then the errors that are told are those of this
-- log, whatever stands before it in the file.
pub startup_error_in-append :
    (old log rest : String)
    → last_from startup_marker_prefix log ≡ some rest
    → startup_error_in (old <> log) ≡ startup_error_in log
unfolding startup_error_in
startup_error_in-append old log rest h =
    ap (λ o. and_then o (λ text. report (filter is_error (lines text))))
      (last_from-append startup_marker_prefix old log rest h ∙ sym h)

module _ {W : Type 0} (sys : System W) where
  failed_once :
      (m project_root : String) (w : W)
      → wrap_with_startup_error sys (daemon_start_failed m) project_root w ≡ daemon_start_failed m
  unfolding wrap_with_startup_error
  failed_once m project_root w = refl

  wrapped_again :
      (e : ClientError) (project_root : String) (w : W)
      → wrap_with_startup_error sys e project_root w
        ≡ explained sys e (read_startup_error sys project_root w)
      → wrap_with_startup_error sys (wrap_with_startup_error sys e project_root w) project_root w
        ≡ wrap_with_startup_error sys e project_root w
  wrapped_again e project_root w h =
      let wrap = λ (x : ClientError). wrap_with_startup_error sys x project_root w in
      elim (Option-cases (read_startup_error sys project_root w)) [
        | inl nothing ↦ ap wrap (h ∙ ap (explained sys e) nothing)
        | inr (m, told) ↦
            let failed = h ∙ ap (explained sys e) told in
            ap wrap failed ∙ failed_once m project_root w ∙ sym failed
      ]

  -- An error that was wrapped is not wrapped again.
  pub wrap_with_startup_error_once :
      (e : ClientError) (project_root : String) (w : W)
      → wrap_with_startup_error sys (wrap_with_startup_error sys e project_root w) project_root w
        ≡ wrap_with_startup_error sys e project_root w
  unfolding wrap_with_startup_error
  wrap_with_startup_error_once (daemon_start_failed m) project_root w = refl
  wrap_with_startup_error_once daemon_not_running project_root w =
      wrapped_again daemon_not_running project_root w refl
  wrap_with_startup_error_once daemon_start_timeout project_root w =
      wrapped_again daemon_start_timeout project_root w refl
  wrap_with_startup_error_once (protocol e) project_root w =
      wrapped_again (protocol e) project_root w refl
  wrap_with_startup_error_once (rejected m) project_root w =
      wrapped_again (rejected m) project_root w refl
  wrap_with_startup_error_once unexpected_response project_root w =
      wrapped_again unexpected_response project_root w refl
  wrap_with_startup_error_once (io e) project_root w = wrapped_again (io e) project_root w refl
  wrap_with_startup_error_once no_project_root project_root w =
      wrapped_again no_project_root project_root w refl
  wrap_with_startup_error_once no_state_dir project_root w =
      wrapped_again no_state_dir project_root w refl
