-- ===== src/Adapters/Notify.antt =====
-- The trait `NotifyAdapter` of crates/adapters, the adapter that records what it is told, and the one
-- that does nothing.
use otters.Base.{String, List, [], ◌∷◌, ◌++◌}
use otters.Base.Result.{ok}
use otters.Base.Exec.{Exec, pure}
use otters.Engine.Error.{NotifyError}

pub record NotifyAdapter (S : Type 0) : Type 0 where
  pub send : (channel message : String) → Exec S NotifyError (Unit {0})

pub record NotifyCall : Type 0 where
  pub channel : String
  pub message : String

-- `FakeNotifyAdapter`, on the calls that it has recorded.
unfoldable pub fake : NotifyAdapter (List NotifyCall)
fake = record {
  send = λ channel message calls.
      (ok tt, calls ++ record { channel = channel; message = message } ∷ []);
}

-- `NoOpNotifyAdapter`
unfoldable pub no_op : {S : Type 0} → NotifyAdapter S
unfolding pure
no_op = record { send = λ channel message. pure tt }
