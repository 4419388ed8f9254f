-- ===== src/Core/Clock.antt =====
-- clock.rs and id.rs of crates/core: time and identifiers, as their test doubles keep them. An
-- instant is a count of milliseconds from a start that nothing reads.
use otters.Base.{ℕ, ◌+◌, ◌*◌, ◌%◌, ◌^◌, String}
use otters.Base.Text.{◌<>◌}
use otters.Base.Int.{show_ℕ}

abbrev pub Instant : Type 0
Instant = ℕ

abbrev pub Duration : Type 0
Duration = ℕ

-- `Duration::from_secs`
abbrev pub from_secs : ℕ → Duration
from_secs n = n * 1000

pub record FakeClock : Type 0 where
  pub current : Instant

unfoldable pub advance : FakeClock → Duration → FakeClock
advance c duration = record c { current = c.current + duration }

unfoldable pub set_now : FakeClock → Instant → FakeClock
set_now c instant = record c { current = instant }

unfoldable pub now : FakeClock → Instant
now c = c.current

pub record SequentialIdGen : Type 0 where
  pub prefix : String
  pub counter : ℕ

unfoldable pub new_id_gen : String → SequentialIdGen
new_id_gen prefix = record { prefix = prefix; counter = 1 }

-- `fetch_add` on an `AtomicU64` wraps.
unfoldable pub next : SequentialIdGen → String × SequentialIdGen
next g = (g.prefix <> "-" <> show_ℕ g.counter, record g { counter = (g.counter + 1) % 2 ^ 64 })
