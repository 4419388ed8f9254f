-- ===== src/Runbook/ArgSyntax/Valid.antt =====
-- What `parse_arg_spec` keeps of the arguments that it has collected.
use Prim.Native.Char.{Char}
use otters.Base.{
  String, ◌≡◌, refl, inl, inr, Option, none, some, List, [], ◌∷◌, ◌++◌, Bool, true, false,
  Bool-cases, if◌then◌else◌, map,
}
use otters.Base.Text.{is_some}
use otters.Base.Lists.{All, All-append, In}
use otters.Base.Result.{err, Holds, Holds-bind, ◌>>=◌}
use otters.Runbook.Command.{ArgDef, VariadicDef, ArgSpec}
use otters.Runbook.ArgSyntax.{
  Parsing, Step, ArgSpecError, mem, check_name, recorded, add_variadic, add_required, add_optional,
  add_option, add_flag,
}
use otters.Runbook.ArgSyntax.Names.{
  Unique, Inserted, here, Inserted-In, Inserted-Unique, Inserted-behind, Inserted-pushed, mem-In,
  mem-cons, variadic_names, spec_names,
}

-- No required positional argument stands behind an optional one.
abbrev pub RequiredFirst : List ArgDef → Type 0
RequiredFirst [] = Unit
RequiredFirst (a ∷ ds) = (a.required ≡ false → All (λ d. d.required ≡ false) ds) × RequiredFirst ds

pub record IsValid (s : ArgSpec) : Type 0 where
  pub unique : Unique (spec_names s)
  pub required_first : RequiredFirst s.positional

-- The invariant of the loop.
pub record IsParsing (p : Parsing) : Type 0 where
  pub valid : IsValid p.result
  pub known : (k : String) → In k (spec_names p.result) → mem k p.names ≡ true
  pub unseen : p.seen_optional_positional ≡ false → All (λ d. d.required ≡ true) p.result.positional

All-required :
    (ds : List ArgDef) (d : ArgDef) → All (λ a. a.required ≡ true) ds → RequiredFirst (ds ++ d ∷ [])
All-required [] d h = (λ _. tt, tt)
All-required (a ∷ ds) d h = (λ e. cc, All-required ds d h.1)

optional_last :
    (ds : List ArgDef) (d : ArgDef)
    → d.required ≡ false
    → RequiredFirst ds
    → RequiredFirst (ds ++ d ∷ [])
optional_last [] d e h = (λ _. tt, tt)
optional_last (a ∷ ds) d e h = (
  λ o. All-append (λ a. a.required ≡ false) ds (d ∷ []) (h.0 o) (e, tt),
  optional_last ds d e h.1,
)

abbrev pub Kept : Step → Type 0
Kept = Holds IsParsing

-- A name that is checked is new, and the loop knows it from then on.
check_name_new :
    (name : String) (p : Parsing)
    → Holds (λ q. (mem name p.names ≡ false) × (q ≡ recorded name p)) (check_name name p)
unfolding check_name
check_name_new name p = elim (Bool-cases (mem name p.names)) [
  | inl y ↦ rw y tt
  | inr n ↦ rw n (refl, refl)
]

module _ (name : String) (p : Parsing) (h : IsParsing p) (new : mem name p.names ≡ false) where
  new_name : ¬ In name (spec_names p.result)
  new_name i = absurd (cc (h.known name i, new))

  -- A definition of that name goes into the specification.
  grown :
      (s : ArgSpec) (seen : Bool)
      → Inserted name (spec_names p.result) (spec_names s)
      → RequiredFirst s.positional
      → (seen ≡ false → All (λ d. d.required ≡ true) s.positional)
      → IsParsing (record { result = s; seen_optional_positional = seen; names = name ∷ p.names })
  grown s seen i first all = record {
    valid = record { unique = Inserted-Unique i new_name h.valid.unique; required_first = first };
    known = λ k at. elim (Inserted-In k i at) [
      | inl e ↦ mem-In k (name ∷ p.names) (inl e)
      | inr old ↦ mem-cons k name p.names (h.known k old)
    ];
    unseen = all;
  }

-- A step that checks a name and goes on with what it makes of the definition of that name.
checked :
    (name : String) (p : Parsing) (f : Parsing → Step)
    → (mem name p.names ≡ false → Kept (f (recorded name p)))
    → Kept (check_name name p >>= f)
checked name p f h =
    Holds-bind (λ q. (mem name p.names ≡ false) × (q ≡ recorded name p)) IsParsing
      (check_name name p) f (check_name_new name p) (λ q (new, e). rw e (h new))

-- A step that a test refuses.
refused :
    (b : Bool) (e : ArgSpecError) (m : Step) → (b ≡ false → Kept m) → Kept (if b then err e else m)
refused true e m h = tt
refused false e m h = h refl

pub either : (b : Bool) (m n : Step) → Kept m → Kept n → Kept (if b then m else n)
either true m n hm hn = hm
either false m n hm hn = hn

-- A second variadic argument is refused, so that there was none.
variadic-Inserted :
    (v : VariadicDef) (o : Option VariadicDef)
    → is_some o ≡ false
    → Inserted v.name (variadic_names o) (v.name ∷ [])
variadic-Inserted v none h = here
variadic-Inserted v (some w) h = cc

pub add_variadic-Kept :
    (name : String) (required : Bool) (p : Parsing)
    → IsParsing p
    → Kept (add_variadic name required p)
unfolding add_variadic spec_names
add_variadic-Kept name required p h = checked name p _ λ new.
    refused (is_some p.result.variadic) _ _ λ none_yet.
      grown name p h new _ p.seen_optional_positional
        (Inserted-behind (map (λ a. a.name) p.result.positional) (
          Inserted-behind (map (λ f. f.name) p.result.flags) (
            Inserted-behind (map (λ o. o.name) p.result.options) (
              variadic-Inserted (record { name = name; required = required }) p.result.variadic
                none_yet))))
        h.valid.required_first h.unseen

pub add_required-Kept : (name : String) (p : Parsing) → IsParsing p → Kept (add_required name p)
unfolding add_required spec_names
add_required-Kept name p h = refused (is_some p.result.variadic) _ _ λ _.
    refused p.seen_optional_positional _ _ λ unseen. checked name p _ λ new.
      grown name p h new _ p.seen_optional_positional
        (Inserted-pushed (λ a. a.name) p.result.positional _ _) (All-required _ _ (h.unseen unseen))
        (λ u. All-append (λ d. d.required ≡ true) p.result.positional _ (h.unseen u) (refl, tt))

pub add_optional-Kept : (name : String) (p : Parsing) → IsParsing p → Kept (add_optional name p)
unfolding add_optional spec_names
add_optional-Kept name p h = refused (is_some p.result.variadic) _ _ λ _. checked name p _ λ new.
    grown name p h new _ true (Inserted-pushed (λ a. a.name) p.result.positional _ _)
      (optional_last _ _ refl h.valid.required_first) (λ u. cc)

pub add_option-Kept :
    (required : Bool) (p : Parsing) (names : Option Char × String)
    → IsParsing p
    → Kept (add_option required p names)
unfolding add_option spec_names
add_option-Kept required p (short, name) h = checked name p _ λ new.
    grown name p h new _ p.seen_optional_positional
      (Inserted-behind (map (λ a. a.name) p.result.positional) (
        Inserted-behind (map (λ f. f.name) p.result.flags)
          (Inserted-pushed (λ o. o.name) p.result.options _ _)))
      h.valid.required_first h.unseen

pub add_flag-Kept :
    (p : Parsing) (names : Option Char × String) → IsParsing p → Kept (add_flag p names)
unfolding add_flag spec_names
add_flag-Kept p (short, name) h = checked name p _ λ new.
    grown name p h new _ p.seen_optional_positional
      (Inserted-behind (map (λ a. a.name) p.result.positional)
        (Inserted-pushed (λ f. f.name) p.result.flags _ _))
      h.valid.required_first h.unseen
