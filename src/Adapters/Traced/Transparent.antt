-- ===== src/Adapters/Traced/Transparent.antt =====
-- A traced adapter is the adapter that it wraps, but for the calls whose precondition fails.
use otters.Base.{String, ◌≡◌, sym, ap, ◌∙◌, Bool, true, false, Bool-cases, inl, inr}
use otters.Base.Text.{◌<>◌}
use otters.Base.Result.{ok, err}
use otters.Engine.Error.{spawn_failed}
use otters.Adapters.Session.{Vars, SessionAdapter, IsSessionAdapter}
use otters.Adapters.Traced.{Paths, traced_session}

-- What a traced adapter is of the adapter that it wraps.
pub record IsGuarded {S : Type 0} (p : Paths S) (inner outer : SessionAdapter S)
    (lives : S → String → Bool) : Type 0 where
  pub keeps : IsSessionAdapter outer lives
  -- A session that was spawned is the inner adapter's, and its directory was there.
  pub spawned :
      (name cwd cmd : String) (vars : Vars) (s : S) (id : String)
      → (outer.spawn name cwd cmd vars s).0 ≡ ok id
      → (p.exists s cwd ≡ true)
        × (outer.spawn name cwd cmd vars s ≡ inner.spawn name cwd cmd vars s)
  -- Where the directory is there, a failure is the inner adapter's too.
  pub passes :
      (name cwd cmd : String) (vars : Vars) (s : S)
      → p.exists s cwd ≡ true
      → outer.spawn name cwd cmd vars s ≡ inner.spawn name cwd cmd vars s
  -- Where it is not, the inner adapter is not called.
  pub refuses :
      (name cwd cmd : String) (vars : Vars) (s : S)
      → p.exists s cwd ≡ false
      → outer.spawn name cwd cmd vars s
        ≡ (err (spawn_failed ("working directory does not exist: " <> cwd)), s)

module _ {S : Type 0} (p : Paths S) (inner : SessionAdapter S) where
  passes_there :
      (name cwd cmd : String) (vars : Vars) (s : S)
      → p.exists s cwd ≡ true
      → (traced_session p inner).spawn name cwd cmd vars s ≡ inner.spawn name cwd cmd vars s
  unfolding traced_session
  passes_there name cwd cmd vars s there = rw there

  refuses_missing :
      (name cwd cmd : String) (vars : Vars) (s : S)
      → p.exists s cwd ≡ false
      → (traced_session p inner).spawn name cwd cmd vars s
        ≡ (err (spawn_failed ("working directory does not exist: " <> cwd)), s)
  unfolding traced_session
  refuses_missing name cwd cmd vars s missing = rw missing

  spawned_there :
      (name cwd cmd : String) (vars : Vars) (s : S) (id : String)
      → ((traced_session p inner).spawn name cwd cmd vars s).0 ≡ ok id
      → (p.exists s cwd ≡ true)
        × ((traced_session p inner).spawn name cwd cmd vars s ≡ inner.spawn name cwd cmd vars s)
  spawned_there name cwd cmd vars s id e = elim (Bool-cases (p.exists s cwd)) [
    | inl there ↦ (there, passes_there name cwd cmd vars s there)
    | inr missing ↦ absurd (cc (e, ap (λ x. x.0) (refuses_missing name cwd cmd vars s missing)))
  ]

  -- The sessions of a traced adapter live and die as those of the adapter that it wraps.
  keeps_contract :
      (lives : S → String → Bool)
      → IsSessionAdapter inner lives
      → IsSessionAdapter (traced_session p inner) lives
  unfolding traced_session
  keeps_contract lives h = record {
    spawned = λ name cwd cmd vars s id e.
        let same = (spawned_there name cwd cmd vars s id e).1 in
        ap (λ x. lives x.1 id) same
        ∙ h.spawned name cwd cmd vars s id (sym (ap (λ x. x.0) same) ∙ e);
    killed = h.killed;
    kill_others = h.kill_others;
    tells = h.tells;
    asks = h.asks;
    sends = h.sends;
    captures = h.captures;
  }

  -- A traced adapter keeps the promises on sessions that the adapter inside it keeps, and spawns a
  -- session just where that one does and the working directory is there: it fails on a missing
  -- directory without a call of the inner adapter and with nothing changed, and is the inner adapter
  -- where the directory is there.
  pub traced_session-IsGuarded :
      (lives : S → String → Bool)
      → IsSessionAdapter inner lives
      → IsGuarded p inner (traced_session p inner) lives
  traced_session-IsGuarded lives h = record {
    keeps = keeps_contract lives h;
    spawned = spawned_there;
    passes = passes_there;
    refuses = refuses_missing;
  }
