-- ===== src/Core/Effect.antt =====
-- effect.rs of crates/core: what the runtime asks the executor to do.
use otters.Base.{String, Option, List}
use otters.Base.Dict.{Dict}
use otters.Core.Clock.{Duration}
use otters.Core.Event.{Event}
use otters.Core.Operation.{Operation}

pub data Effect (V : Type 0) : Type 0 where
  emit : (event : Event V) → Effect V
  spawn :
      (workspace_id command : String)
      → (env : List (String × String)) → (cwd : Option String) → Effect V
  send : (session_id input : String) → Effect V
  kill : (session_id : String) → Effect V
  worktree_add : (branch path : String) → Effect V
  worktree_remove : (path : String) → Effect V
  set_timer : (id : String) → (duration : Duration) → Effect V
  cancel_timer : (id : String) → Effect V
  persist : (operation : Operation) → Effect V
  shell : (pipeline_id phase command cwd : String) → (env : Dict String) → Effect V
  notify : (title message : String) → Effect V

module _ {V : Type 0} where
  -- `TracedEffect::name`
  unfoldable pub name : Effect V → String
  name (emit e) = "emit"
  name (spawn w c e d) = "spawn"
  name (send i t) = "send"
  name (kill i) = "kill"
  name (worktree_add b p) = "worktree_add"
  name (worktree_remove p) = "worktree_remove"
  name (set_timer i d) = "set_timer"
  name (cancel_timer i) = "cancel_timer"
  name (persist o) = "persist"
  name (shell i p c d e) = "shell"
  name (notify t m) = "notify"
