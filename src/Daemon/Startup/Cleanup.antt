-- ===== src/Daemon/Startup/Cleanup.antt =====
-- What a start that fails, and a shutdown, leave of a daemon's files.
use otters.Base.{String, ◌≡◌, refl, Bool, true, false, inl, inr}
use otters.Base.Result.{Result, ok, err, Result-cases}
use otters.Core.Clock.{Instant}
use otters.Runbook.Parser.{Toml}
use otters.Engine.Machine.{Env}
use otters.Daemon.Lifecycle.{LifecycleError}
use otters.Daemon.Startup.{
  Host, Config, remove_if, remove_existing, cleanup_on_failure, shutdown, cleaned, startup_inner,
  startup,
}

-- On Unix a path whose removal returned `Ok` is gone, and a removal makes no other path.
pub record IsHost {W : Type 0} (host : Host W) : Type 0 where
  pub removes :
      (path : String) (w : W)
      → (host.remove_file path w).0 ≡ ok tt
      → host.exists (host.remove_file path w).1 path ≡ false
  pub keeps :
      (path other : String) (w : W)
      → host.exists w other ≡ false
      → host.exists (host.remove_file path w).1 other ≡ false

module _ {W : Type 0} (host : Host W) where
  -- In `v` the path is gone, unless it was there in `w` and its removal there failed.
  pub data Gone (path : String) (w v : W) : Type 0 where
    absent : host.exists v path ≡ false → Gone path w v
    refused :
        (e : String)
        → host.exists w path ≡ true
        → (host.remove_file path w).0 ≡ err e
        → Gone path w v

  -- The removals of three paths, one after the other, lead from `w` to `v`.
  pub record AreGone (a b c : String) (w v : W) : Type 0 where
    pub first : Gone a w v
    pub second : Gone b (remove_existing host a w) v
    pub third : Gone c (remove_existing host b (remove_existing host a w)) v

module _ {W : Type 0} (host : Host W) (lawful : IsHost host) where
  remove_if-Gone :
      (path : String) (b : Bool) (w : W)
      → host.exists w path ≡ b
      → Gone host path w (remove_if host path b w)
  unfolding remove_if
  remove_if-Gone path false w h = absent h
  remove_if-Gone path true w h = elim (Result-cases (host.remove_file path w).0) [
    | inl (tt, e) ↦ absent (lawful.removes path w e)
    | inr (e, r) ↦ refused e h r
  ]

  remove_existing-Gone : (path : String) (w : W) → Gone host path w (remove_existing host path w)
  unfolding remove_existing
  remove_existing-Gone path w = remove_if-Gone path _ w refl

  remove_if-keeps :
      (path other : String) (b : Bool) (w : W)
      → host.exists w other ≡ false
      → host.exists (remove_if host path b w) other ≡ false
  unfolding remove_if
  remove_if-keeps path other false w h = h
  remove_if-keeps path other true w h = lawful.keeps path other w h

  Gone-remove_existing :
      (path other : String) (w v : W)
      → Gone host other w v
      → Gone host other w (remove_existing host path v)
  unfolding remove_existing
  Gone-remove_existing path other w v (absent h) = absent (remove_if-keeps path other _ v h)
  Gone-remove_existing path other w v (refused e h r) = refused e h r

  three-AreGone :
      (a b c : String) (w : W)
      → AreGone host a b c w
          (remove_existing host c (remove_existing host b (remove_existing host a w)))
  three-AreGone a b c w =
      let w1 = remove_existing host a w in
      let w2 = remove_existing host b w1 in
      record {
        first =
            Gone-remove_existing c a w w2
              (Gone-remove_existing b a w w1 (remove_existing-Gone a w));
        second = Gone-remove_existing c b w1 w2 (remove_existing-Gone b w1);
        third = remove_existing-Gone c w2;
      }

  -- A shutdown leaves neither a socket nor a pid nor a version, but for those whose removal failed.
  pub shutdown-AreGone :
      (config : Config) (w : W)
      → AreGone host config.socket_path config.lock_path config.version_path w
          (shutdown host config w)
  unfolding shutdown
  shutdown-AreGone config w = three-AreGone _ _ _ w

  cleaned-AreGone :
      {A : Type 0} (config : Config) (r : Result LifecycleError A × W) (e : LifecycleError)
      → r.0 ≡ err e
      → ((cleaned host config r).0 ≡ err e)
        × AreGone host config.socket_path config.version_path config.lock_path r.1
            (cleaned host config r).1
  unfolding cleaned cleanup_on_failure
  cleaned-AreGone config (ok a, w) e h = absurd (cc h)
  cleaned-AreGone config (err f, w) e h = (h, three-AreGone _ _ _ w)

  module _ {V T : Type 0} (env : Env V W) (t : Toml T) (version : String) (now : Instant) where
    -- On a system where a path whose removal returned `Ok` is gone and a removal makes no path: if a
    -- step of a start fails, then the start returns the error of that step, and each of the daemon's
    -- socket, version and pid files is gone, unless it was there and its removal failed. This is so
    -- for every such error, the refusal of the lock that another daemon holds among them, whose files
    -- these are.
    pub startup-AreGone :
        (config : Config) (w : W) (e : LifecycleError)
        → (startup_inner host env t version now config w).0 ≡ err e
        → ((startup host env t version now config w).0 ≡ err e)
          × AreGone host config.socket_path config.version_path config.lock_path
              (startup_inner host env t version now config w).1
              (startup host env t version now config w).1
    unfolding startup
    startup-AreGone config w e h =
        cleaned-AreGone config (startup_inner host env t version now config w) e h
