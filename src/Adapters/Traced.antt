-- ===== src/Adapters/Traced.antt =====
-- traced.rs of crates/adapters: the wrappers that log the calls of an adapter and check their
-- preconditions. What they log is not modelled.
pub mod Transparent
use otters.Base.{String, Bool, true, false, Option, none, some}
use otters.Base.Text.{◌<>◌}
use otters.Base.Result.{Result, err}
use otters.Base.Exec.{Exec}
use otters.Engine.Error.{SessionError, spawn_failed, RepoError}
use otters.Adapters.Session.{SessionAdapter}
use otters.Adapters.Repo.{RepoAdapter}

-- `Path::exists` in a state of the world, and `Path::parent`.
pub record Paths (S : Type 0) : Type 0 where
  pub exists : S → String → Bool
  pub parent : String → Option String

module _ {S E A : Type 0} where
  -- A call that goes on if a precondition holds.
  abbrev checked : Bool → E → Exec S E A → Exec S E A
  checked true e m s = m s
  checked false e m s = (err e, s)

  abbrev checked_parent : Paths S → Option String → (String → E) → Exec S E A → Exec S E A
  checked_parent p none e m s = m s
  checked_parent p (some parent) e m s = checked (p.exists s parent) (e parent) m s

module _ {S : Type 0} (p : Paths S) where
  -- `TracedSessionAdapter`
  unfoldable pub traced_session : SessionAdapter S → SessionAdapter S
  traced_session inner = record inner {
    spawn = λ name cwd cmd vars s.
        checked (p.exists s cwd) (spawn_failed ("working directory does not exist: " <> cwd))
          (inner.spawn name cwd cmd vars) s;
  }

  -- `TracedRepoAdapter`
  unfoldable pub traced_repo : RepoAdapter S → RepoAdapter S
  traced_repo inner = record inner {
    worktree_add = λ branch path s.
        checked_parent p (p.parent path)
          (λ parent. RepoError.command_failed ("parent directory does not exist: " <> parent))
          (inner.worktree_add branch path) s;
  }
