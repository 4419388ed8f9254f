-- ===== src/Runbook/Command/Arguments.antt =====
-- `validate_args` and `parse_args` of command.rs together.
use otters.Base.{
  ℕ, suc, String, ◌≡◌, refl, ◌⊎◌, inl, inr, Bool, true, false, ◌||◌, Option, none, some, List, [],
  ◌∷◌, ltb, if◌then◌else◌, Option-cases,
}
use otters.Base.Lists.{All, length, get_elem?}
use otters.Base.Text.{is_some}
use otters.Base.Result.{Result, ok}
use otters.Base.Dict.{Dict, insert}
use otters.Runbook.Command.{
  ArgSpec, ArgDef, OptionDef, VariadicDef, CommandDef, ArgValidationError, contains_key,
  check_positional, check_options, check_variadic, first_error, validate_args, insert_positional,
  insert_variadic, insert_all, parse_args,
}
use otters.Runbook.Command.Keys.{
  Covers, insert_self, insert_positional-Covers, insert_variadic-Covers, insert_all-Covers,
  named_contains,
}

or-true : (a b : Bool) → (a || b) ≡ true → (a ≡ true) ⊎ (b ≡ true)
or-true true b h = inl refl
or-true false b h = inr h

present :
    (named defaults d : Dict String) (k : String)
    → Covers defaults d
    → (contains_key named k || contains_key defaults k) ≡ true
    → contains_key (insert_all named.entries d) k ≡ true
present named defaults d k c h = elim (or-true (contains_key named k) (contains_key defaults k) h) [
  | inl n ↦ named_contains k named d n
  | inr p ↦ insert_all-Covers named.entries d k (c k p)
]

-- A required argument has a value.
abbrev pub Given : Bool → Dict String → String → Type 0
Given required result name = required ≡ true → contains_key result name ≡ true

-- A check that passes: so do those behind it, and what it requires is there.
passed :
    (required has_value : Bool) (e : ArgValidationError) (rest : Option ArgValidationError)
    → (if required then (if has_value then rest else some e) else rest) ≡ none
    → (rest ≡ none) × (required ≡ true → has_value ≡ true)
passed true true e rest h = (h, λ r. refl)
passed true false e rest h = cc
passed false has_value e rest h = (h, λ r. cc)

module _ (defaults : Dict String) (positional : List String) (named : Dict String) where
  options_present :
      (os : List OptionDef) (d : Dict String)
      → Covers defaults d
      → check_options defaults positional named os ≡ none
      → All (λ o. Given o.required (insert_all named.entries d) o.name) os
  unfolding check_options
  options_present [] d c h = tt
  options_present (o ∷ os) d c h =
      let (rest, has) = passed o.required _ _ _ h in
      (λ r. present named defaults d o.name c (has r), options_present os d c rest)

  variadic_present :
      (start : ℕ) (v : VariadicDef) (d : Dict String)
      → Covers defaults d
      → check_variadic defaults positional named start (some v) ≡ none
      → Given v.required
          (insert_all named.entries (insert_variadic positional start (some v) d))
          v.name
  unfolding check_variadic
  variadic_present start v d c h r =
      elim (or-true (ltb start (length positional)) _ ((passed v.required _ _ none h).1 r)) [
        | inl y ↦
            insert_all-Covers named.entries _ v.name
              (unfold insert_variadic in rw y (insert_self d v.name _))
        | inr s ↦
            present named defaults _ v.name
              (λ k x. insert_variadic-Covers positional start (some v) d k (c k x)) s
      ]

  -- A value at the argument's place, or under its name, is in all that has those.
  value_present :
      (i : ℕ) (a : ArgDef) (ds : List ArgDef) (d result : Dict String)
      → Covers named result
      → Covers defaults result
      → Covers (insert_positional positional i (a ∷ ds) d) result
      → (is_some (get_elem? positional i)
          || (contains_key named a.name || contains_key defaults a.name))
        ≡ true
      → contains_key result a.name ≡ true
  unfolding insert_positional
  value_present i a ds d result hn hd hr h = elim (Option-cases (get_elem? positional i)) [
    | inl gone ↦
        elim (or-true (contains_key named a.name) (contains_key defaults a.name) (rw gone at h)) [
          | inl y ↦ hn a.name y
          | inr y ↦ hd a.name y
        ]
    | inr (value, e) ↦ hr a.name (
        rw e (
          insert_positional-Covers positional (suc i) ds (insert d a.name value) a.name
            (insert_self d a.name value)))
  ]

  positional_present :
      (i : ℕ) (ds : List ArgDef) (d result : Dict String)
      → Covers named result
      → Covers defaults result
      → Covers (insert_positional positional i ds d) result
      → check_positional defaults positional named i ds ≡ none
      → All (λ a. Given a.required result a.name) ds
  unfolding check_positional insert_positional
  positional_present i [] d result hn hd hr h = tt
  positional_present i (a ∷ ds) d result hn hd hr h =
      let (rest, has) =
        passed a.required
          (is_some (get_elem? positional i)
            || (contains_key named a.name || contains_key defaults a.name))
          _ _ h in
      (
        λ r. value_present i a ds d result hn hd hr (has r),
        positional_present (suc i) ds _ result hn hd hr rest,
      )

first_error-ok :
    (o : Option ArgValidationError) (r : Result ArgValidationError (Unit {0}))
    → first_error o r ≡ ok tt
    → (o ≡ none) × (r ≡ ok tt)
first_error-ok none r h = (refl, h)
first_error-ok (some e) r h = cc

-- The variadic argument, if there is one, has a value if it is required.
abbrev pub VariadicGiven : Option VariadicDef → Dict String → Type 0
VariadicGiven none result = Unit
VariadicGiven (some v) result = Given v.required result v.name

variadic_given :
    (defaults : Dict String) (positional : List String) (named : Dict String) (start : ℕ)
    (v : Option VariadicDef) (d : Dict String)
    → Covers defaults d
    → check_variadic defaults positional named start v ≡ none
    → VariadicGiven v (insert_all named.entries (insert_variadic positional start v d))
variadic_given defaults positional named start none d c h = tt
variadic_given defaults positional named start (some v) d c h =
    variadic_present defaults positional named start v d c h

-- Every required argument of the command has a value.
pub record AllGiven (spec : ArgSpec) (result : Dict String) : Type 0 where
  pub positional : All (λ a. Given a.required result a.name) spec.positional
  pub options : All (λ o. Given o.required result o.name) spec.options
  pub variadic : VariadicGiven spec.variadic result

-- If `validate_args` accepts a call, then in what `parse_args` makes of that call every required
-- argument of the command has a value, be it positional, an option or the variadic one.
pub validate_args-AllGiven :
    (c : CommandDef) (positional : List String) (named : Dict String)
    → validate_args c positional named ≡ ok tt
    → AllGiven c.args (parse_args c positional named)
unfolding validate_args parse_args
validate_args-AllGiven c positional named h =
    let start = length c.args.positional in
    let (no_positional, h') = first_error-ok _ _ h in
    let (no_options, h'') = first_error-ok _ _ h' in
    let (no_variadic, _) = first_error-ok _ _ h'' in
    let filled = insert_positional positional 0 c.args.positional c.defaults in
    let covers : Covers filled (parse_args c positional named) = λ k x.
      insert_all-Covers named.entries _ k
        (insert_variadic-Covers positional start c.args.variadic filled k x) in
    record {
      positional =
          positional_present c.defaults positional named 0 c.args.positional c.defaults _
            (λ k x. named_contains k named _ x)
            (λ k x.
              covers k (insert_positional-Covers positional 0 c.args.positional c.defaults k x))
            covers no_positional;
      options =
          options_present c.defaults positional named c.args.options _
            (λ k x.
              insert_variadic-Covers positional start c.args.variadic _ k
                (insert_positional-Covers positional 0 c.args.positional c.defaults k x))
            no_options;
      variadic =
          variadic_given c.defaults positional named start c.args.variadic filled
            (insert_positional-Covers positional 0 c.args.positional c.defaults) no_variadic;
    }
