-- ===== src/Runbook/Parser/Sections.antt =====
-- Every definition of a runbook file is in the runbook, under its own name, and no other is.
use otters.Base.{
  String, ◌≡◌, refl, sym, ap, subst, inl, inr, Option, none, some, List, [], ◌∷◌, ◌==◌, eq_iff,
  Bool-cases,
}
use otters.Base.Result.{Result, ok, err, ◌>>=◌}
use otters.Base.Dict.{
  Dict, empty, get, insert, lookup, IsDistinct, Distinct, get-insert, get-insert_self,
}
use otters.Runbook.Book.{Runbook}
use otters.Runbook.Parser.{
  Toml, IsToml, ParseError, and_then, field_table, parse_command, parse_worker, parse_pipeline,
  parse_agent, parse_each, parse_section, parse_sections, parse_runbook,
}

ok-bind :
    {E A B : Type 0} (m : Result E A) (f : A → Result E B) (b : B)
    → m >>= f ≡ ok b
    → (a : A) × (m ≡ ok a) × (f a ≡ ok b)
ok-bind (ok a) f b h = (a, refl, h)
ok-bind (err e) f b h = absurd (cc h)

module _ {T A : Type 0} (t : Toml T) (parse : String → T → Result ParseError A) where
  -- What a map holds for a key of which the table has the value `o`, where it held `old`.
  abbrev Parsed : String → Option T → Option A → Option A → Type 0
  Parsed k none old new = new ≡ old
  Parsed k (some v) old new = (a : A) × (parse k v ≡ ok a) × (new ≡ some a)

  each-Parsed :
      (l : List (String × T)) (d d' : Dict A) (k : String)
      → Distinct l
      → parse_each t parse l d ≡ ok d'
      → Parsed k (lookup k l) (get d k) (get d' k)
  unfolding parse_each lookup
  each-Parsed [] d d' k u e = cc e
  each-Parsed ((j, v) ∷ l) d d' k u e =
      let (a, got, rest) = ok-bind (parse j v) _ d' e in
      elim (Bool-cases (j == k)) [
        | inl y ↦ rw y (
            subst (λ i. (x : A) × (parse i v ≡ ok x) × (get d' i ≡ some x)) ((eq_iff j k).0 y)
              (
                a,
                got,
                rw (u.0, get-insert_self d j a) at (each-Parsed l (insert d j a) d' j u.1 rest),
              ))
        | inr n ↦ rw n (rw (get-insert d j k a, n) at (each-Parsed l (insert d j a) d' k u.1 rest))
      ]

  -- What a section of the runbook holds for a key.
  abbrev pub Section : Option (Dict T) → Dict A → Type 0
  Section table d = (k : String) → Parsed k (and_then table (λ e. get e k)) none (get d k)

  Section-parsed :
      (table : Option (Dict T)) (d : Dict A)
      → ((e : Dict T) → table ≡ some e → IsDistinct e)
      → parse_section t parse table ≡ ok d
      → Section table d
  unfolding parse_section get empty
  Section-parsed none d u e k = let same : empty ≡ d = cc e in ap (λ x. get x k) (sym same)
  Section-parsed (some table) d u e k =
      each-Parsed table.entries empty d k (u table refl).distinct e

module _ {T : Type 0} (t : Toml T) where
  -- The runbook holds what each section of the file defines.
  pub record IsRead (table : Dict T) (r : Runbook) : Type 0 where
    pub commands : Section t (parse_command t) (field_table t table "command") r.commands
    pub workers : Section t (parse_worker t) (field_table t table "worker") r.workers
    pub pipelines : Section t (parse_pipeline t) (field_table t table "pipeline") r.pipelines
    pub agents : Section t (parse_agent t) (field_table t table "agent") r.agents

  field-IsDistinct :
      (o : Option T) (e : Dict T) → IsToml t → and_then o t.as_table ≡ some e → IsDistinct e
  field-IsDistinct none e law h = absurd (cc h)
  field-IsDistinct (some v) e law h = law.distinct v e h

  sections-IsRead :
      (table : Dict T) (r : Runbook) → IsToml t → parse_sections t table ≡ ok r → IsRead table r
  unfolding parse_sections
  sections-IsRead table r law h =
      let (commands, hc, h1) = ok-bind _ _ r h in
      let (workers, hw, h2) = ok-bind _ _ r h1 in
      let (pipelines, hp, h3) = ok-bind _ _ r h2 in
      let (agents, ha, h4) = ok-bind _ _ r h3 in
      let made : Runbook = record {
        commands = commands;
        workers = workers;
        pipelines = pipelines;
        agents = agents;
      } in
      let same : made ≡ r = cc h4 in
      subst (λ x. IsRead table x) same
        (record {
          commands =
              Section-parsed t (parse_command t) _ commands
                (λ e. field-IsDistinct (get table "command") e law) hc;
          workers =
              Section-parsed t (parse_worker t) _ workers
                (λ e. field-IsDistinct (get table "worker") e law) hw;
          pipelines =
              Section-parsed t (parse_pipeline t) _ pipelines
                (λ e. field-IsDistinct (get table "pipeline") e law) hp;
          agents =
              Section-parsed t (parse_agent t) _ agents
                (λ e. field-IsDistinct (get table "agent") e law) ha;
        })

  -- A runbook that parses has, under every name, just what the file's section of commands, workers,
  -- pipelines or agents has under it, and each of these definitions parses; it has none else. The
  -- file's tables hold each key once.
  pub parse_runbook-IsRead :
      (content : String) (raw : T) (table : Dict T) (r : Runbook)
      → IsToml t
      → t.from_str content ≡ ok raw
      → t.as_table raw ≡ some table
      → parse_runbook t content ≡ ok r
      → IsRead table r
  unfolding parse_runbook
  parse_runbook-IsRead content raw table r law parsed root h =
      sections-IsRead table r law (rw (parsed, root) at h)
