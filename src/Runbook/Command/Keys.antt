-- ===== src/Runbook/Command/Keys.antt =====
-- The keys of what `parse_args` of command.rs builds.
use otters.Base.{
  ℕ, suc, String, ◌≡◌, refl, inl, inr, true, Option, none, some, List, [], ◌∷◌, ◌==◌, eq_iff, ltb,
  if◌then◌else◌, Bool-cases, Option-cases,
}
use otters.Base.Lists.{length, get_elem?}
use otters.Base.Dict.{Dict, get, lookup, insert, get-insert}
use otters.Runbook.Command.{
  ArgDef, VariadicDef, contains_key, insert_positional, insert_variadic, insert_all,
}

-- A key that was inserted is there, and no other key is lost.
pub contains-insert :
    (d : Dict String) (j k v : String)
    → contains_key (insert d j v) k ≡ (if j == k then true else contains_key d k)
contains-insert d j k v = elim (Bool-cases (j == k)) [
  | inl y ↦ rw (get-insert d j k v, y)
  | inr n ↦ rw (get-insert d j k v, n)
]

-- `e` has every key of `d`.
abbrev pub Covers : Dict String → Dict String → Type 0
Covers d e = (k : String) → contains_key d k ≡ true → contains_key e k ≡ true

Covers-insert : (d : Dict String) (j v : String) → Covers d (insert d j v)
Covers-insert d j v k h = elim (Bool-cases (j == k)) [
  | inl y ↦ rw (contains-insert d j k v, y)
  | inr n ↦ rw (contains-insert d j k v, n) h
]

pub insert_self : (d : Dict String) (k v : String) → contains_key (insert d k v) k ≡ true
insert_self d k v = rw (contains-insert d k k v, (eq_iff k k).1 refl)

pub insert_positional-Covers :
    (positional : List String) (i : ℕ) (ds : List ArgDef) (d : Dict String)
    → Covers d (insert_positional positional i ds d)
unfolding insert_positional
insert_positional-Covers positional i [] d k h = h
insert_positional-Covers positional i (a ∷ ds) d k h =
    elim (Option-cases (get_elem? positional i)) [
      | inl gone ↦ rw gone (insert_positional-Covers positional (suc i) ds d k h)
      | inr (v, e) ↦ rw e (
          insert_positional-Covers positional (suc i) ds (insert d a.name v) k
            (Covers-insert d a.name v k h))
    ]

pub insert_variadic-Covers :
    (positional : List String) (start : ℕ) (v : Option VariadicDef) (d : Dict String)
    → Covers d (insert_variadic positional start v d)
unfolding insert_variadic
insert_variadic-Covers positional start none d k h = h
insert_variadic-Covers positional start (some v) d k h =
    elim (Bool-cases (ltb start (length positional))) [
      | inl y ↦ rw y (Covers-insert d v.name _ k h)
      | inr n ↦ rw n h
    ]

pub insert_all-Covers : (es : List (String × String)) (d : Dict String) → Covers d (insert_all es d)
unfolding insert_all
insert_all-Covers [] d k h = h
insert_all-Covers ((j, v) ∷ es) d k h =
    insert_all-Covers es (insert d j v) k (Covers-insert d j v k h)

insert_all_contains :
    (k v : String) (es : List (String × String)) (d : Dict String)
    → lookup k es ≡ some v
    → contains_key (insert_all es d) k ≡ true
unfolding insert_all lookup
insert_all_contains k v [] d h = cc
insert_all_contains k v ((j, w) ∷ es) d h = elim (Bool-cases (j == k)) [
  | inl y ↦ insert_all-Covers es (insert d j w) k (rw (contains-insert d j k w, y))
  | inr n ↦ insert_all_contains k v es (insert d j w) (rw n at h)
]

-- A named value is in the result.
pub named_contains :
    (k : String) (named : Dict String) (d : Dict String)
    → contains_key named k ≡ true
    → contains_key (insert_all named.entries d) k ≡ true
unfolding get
named_contains k named d h = elim (Option-cases (lookup k named.entries)) [
  | inl gone ↦ cc (rw gone at h)
  | inr (v, e) ↦ insert_all_contains k v named.entries d e
]
