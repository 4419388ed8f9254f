-- ===== src/Runbook/ArgSyntax/Names.antt =====
-- The names of the arguments that `parse_arg_spec` collects.
use otters.Base.{
  String, ◌≡◌, refl, sym, ◌⊎◌, inl, inr, Option, none, some, List, [], ◌∷◌, ◌++◌, map, true,
  Bool-cases, ◌==◌, eq_refl,
}
use otters.Base.Lists.{In}
use otters.Runbook.Command.{VariadicDef, ArgSpec}
use otters.Runbook.ArgSyntax.{mem}

-- No name stands twice.
abbrev pub Unique : List String → Type 0
Unique [] = Unit
Unique (x ∷ xs) = ¬ In x xs × Unique xs

-- The second list is the first with `k` put in somewhere.
pub data Inserted (k : String) : List String → List String → Type 0 where
  here : {xs : List String} → Inserted k xs (k ∷ xs)
  there : {xs ys : List String} (x : String) → Inserted k xs ys → Inserted k (x ∷ xs) (x ∷ ys)

pub Inserted-In :
    {k : String} {xs ys : List String} (j : String) → Inserted k xs ys → In j ys → (j ≡ k) ⊎ In j xs
Inserted-In j here h = h
Inserted-In j (there x i) (inl e) = inr (inl e)
Inserted-In j (there x i) (inr h) = elim (Inserted-In j i h) [
  | inl e ↦ inl e
  | inr h' ↦ inr (inr h')
]

pub Inserted-Unique :
    {k : String} {xs ys : List String} → Inserted k xs ys → ¬ In k xs → Unique xs → Unique ys
Inserted-Unique here new u = (new, u)
Inserted-Unique {k = k} (there x i) new u = (
  λ h. elim (Inserted-In x i h) [ inl e ↦ new (inl (sym e)) | inr h' ↦ u.0 h' ],
  Inserted-Unique i (λ h. new (inr h)) u.1,
)

-- A name put in behind others.
pub Inserted-behind :
    {k : String} {xs ys : List String} (front : List String)
    → Inserted k xs ys
    → Inserted k (front ++ xs) (front ++ ys)
Inserted-behind [] i = i
Inserted-behind (x ∷ front) i = there x (Inserted-behind front i)

-- A definition pushed on a list, of which the names are taken.
pub Inserted-pushed :
    {A : Type 0} (name : A → String) (ds : List A) (a : A) (rest : List String)
    → Inserted (name a) (map name ds ++ rest) (map name (ds ++ a ∷ []) ++ rest)
Inserted-pushed name [] a rest = here
Inserted-pushed name (b ∷ ds) a rest = there (name b) (Inserted-pushed name ds a rest)

pub mem-cons : (k j : String) (js : List String) → mem k js ≡ true → mem k (j ∷ js) ≡ true
unfolding mem
mem-cons k j js h = elim (Bool-cases (j == k)) [ inl y ↦ rw y refl | inr n ↦ rw n h ]

pub mem-In : (k : String) (ks : List String) → In k ks → mem k ks ≡ true
unfolding mem
mem-In k [] h = absurd h
mem-In k (j ∷ js) (inl e) = rw (← e) (rw (eq_refl k) refl)
mem-In k (j ∷ js) (inr h) = mem-cons k j js (mem-In k js h)

abbrev pub variadic_names : Option VariadicDef → List String
variadic_names none = []
variadic_names (some v) = v.name ∷ []

-- The names of a specification: positional arguments, flags, options, the variadic argument.
unfoldable pub spec_names : ArgSpec → List String
spec_names s =
    map (λ a. a.name) s.positional
    ++ (map (λ f. f.name) s.flags ++ (map (λ o. o.name) s.options ++ variadic_names s.variadic))
