-- ===== src/Examples/Toml.antt =====
-- The theorem on runbook files, on a file with one worker.
use otters.Base.{String, ◌≡◌, refl, sym, Option, none, some, List, [], ◌∷◌, ap, subst}
use mathlib.Core.Option.{some-injective}
use otters.Base.Result.{ok, err}
use otters.Base.Dict.{Dict, empty, IsDistinct, Distinct}
use otters.Runbook.Book.{Runbook}
use otters.Runbook.Parser.{Toml, IsToml, parse_runbook}
use otters.Runbook.Parser.Sections.{IsRead, parse_runbook-IsRead}

-- The values of the file: its root, the table of the workers, and the only worker.
pub data Node : Type 0 where
  root workers worker : Node

abbrev table_of : Node → Dict Node
table_of root = record { entries = ("worker", workers) ∷ [] }
table_of workers = record { entries = ("w", worker) ∷ [] }
table_of worker = record { entries = [] }

abbrev pub toml : Toml Node
toml = record {
  from_str = λ content. ok root;
  as_table = λ v. some (table_of v);
  as_array = λ v. none;
  as_str = λ v. none;
  as_integer = λ v. none;
  to_run = λ v. err "not a run directive";
  to_agent = λ v. err "not an agent";
  to_struct = λ v. err "not arguments";
  custom = λ e. e;
}

IsDistinct-table : (v : Node) → IsDistinct (table_of v)
unfolding otters.Base.Dict.lookup
IsDistinct-table root = record { distinct = (refl, tt) }
IsDistinct-table workers = record { distinct = (refl, tt) }
IsDistinct-table worker = record { distinct = tt }

toml-IsToml : IsToml toml
toml-IsToml = record {
  distinct = λ v d e. subst (λ x. IsDistinct x) (some-injective _ _ e) (IsDistinct-table v);
}

abbrev runbook : Runbook
runbook = record {
  commands = record { entries = [] };
  workers = record { entries = ("w", record { name = "w"; concurrency = 1; pipelines = [] }) ∷ [] };
  pipelines = record { entries = [] };
  agents = record { entries = [] };
}

parsed : parse_runbook toml "[worker.w]" ≡ ok runbook
unfolding parse_runbook otters.Base.Dict.get empty otters.Base.Dict.insert
parsed = refl

parse_runbook-IsRead_example : IsRead toml (table_of root) runbook
parse_runbook-IsRead_example =
    parse_runbook-IsRead toml "[worker.w]" root (table_of root) runbook toml-IsToml refl refl parsed
