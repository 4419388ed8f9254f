-- ===== src/Cli/Start/Version.antt =====
-- `connect_or_start` of the client where the daemon's version file is of another version.
use otters.Base.{
  ℕ, String, ◌≡◌, ◌≢◌, ◌↔◌, refl, ap, false, Bool-cases, inl, inr, Option, none, some, ◌==◌,
}
use otters.Base.Chars.{trim}
use mathlib.Core.Option.{some-injective}
use otters.Cli.System.{System, get_daemon_dir}
use otters.Cli.Stop.{Run}
use otters.Cli.Start.{
  panicked, blocked_on, returning, connect_next, after_stop, version_text, check_version,
  connect_or_start,
}

module _ {W : Type 0} (sys : System W) where
  -- The version file of the project's daemon can be read and names another version.
  pub record IsOutdated (version project_root : String) (w : W) : Type 0 where
    pub text : String
    pub read : version_text sys (get_daemon_dir sys project_root w) w ≡ some text
    pub differs : (trim text == version) ≡ false

  returning_calm : {A : Type 0} (o : Run sys A) (v : W) → returning sys o ≢ some (panicked, v)
  unfolding returning
  returning_calm none v = λ e. cc
  returning_calm (some (a, w)) v = λ e. cc (ap (λ x. x.0) (some-injective _ _ e))

  connect_next_calm :
      (fuel : ℕ) (project_root : String) (w v : W)
      → connect_next sys fuel project_root w ≢ some (panicked, v)
  unfolding connect_next
  connect_next_calm fuel project_root w v = returning_calm _ v

  panics_outdated :
      (fuel : ℕ) (version project_root : String) (o : Option String) (w : W)
      → check_version sys fuel version project_root o w ≡ some (panicked, w)
      → (text : String) × (o ≡ some text) × ((trim text == version) ≡ false)
  unfolding check_version
  panics_outdated fuel version project_root none w e =
      absurd (connect_next_calm fuel project_root w w e)
  panics_outdated fuel version project_root (some text) w e =
      elim (Bool-cases (trim text == version)) [
        | inl y ↦ absurd (connect_next_calm fuel project_root w w (rw y at e))
        | inr n ↦ (text, refl, n)
      ]

  outdated_panics :
      (fuel : ℕ) (version project_root text : String) (w : W)
      → sys.can_block w ≡ false
      → (trim text == version) ≡ false
      → check_version sys fuel version project_root (some text) w ≡ some (panicked, w)
  unfolding check_version after_stop blocked_on
  outdated_panics fuel version project_root text w blocked n = rw (n, blocked) refl

  -- Where `Handle::current().block_on` panics, as tokio documents for the asynchronous context in which
  -- the command line calls it, `connect_or_start` panics before it has changed anything if and only
  -- if the version file of the project's daemon can be read and names another version than the
  -- client's.
  pub connect_or_start-panics :
      (fuel : ℕ) (version project_root : String) (w : W)
      → sys.can_block w ≡ false
      → (connect_or_start sys fuel version project_root w ≡ some (panicked, w)
          ↔ IsOutdated version project_root w)
  unfolding connect_or_start
  connect_or_start-panics fuel version project_root w blocked = (
    λ e.
        let (text, read, differs) = panics_outdated fuel version project_root _ w e in
        record { text = text; read = read; differs = differs },
    λ h. rw h.read (outdated_panics fuel version project_root h.text w blocked h.differs),
  )
