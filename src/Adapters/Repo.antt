-- ===== src/Adapters/Repo.antt =====
-- The trait `RepoAdapter` of crates/adapters, the worktrees in memory that tests use, and the adapter
-- that does nothing.
pub mod Fake
pub mod Git
use otters.Base.{String, List, []}
use otters.Base.Exec.{Exec, pure}
use otters.Engine.Error.{RepoError}

pub record RepoAdapter (S : Type 0) : Type 0 where
  pub worktree_add : (branch path : String) → Exec S RepoError (Unit {0})
  pub worktree_remove : (path : String) → Exec S RepoError (Unit {0})
  pub worktree_list : Exec S RepoError (List String)

-- `NoOpRepoAdapter`
unfoldable pub no_op : {S : Type 0} → RepoAdapter S
unfolding pure
no_op = record {
  worktree_add = λ branch path. pure tt;
  worktree_remove = λ path. pure tt;
  worktree_list = pure [];
}
