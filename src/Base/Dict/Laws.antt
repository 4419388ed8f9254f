-- ===== src/Base/Dict/Laws.antt =====
-- What a `HashMap` promises to its clients: what a lookup finds after each operation.
use Prim.Native.String.{String}
use mathlib.Core.Path.{◌≡◌, refl, sym}
use mathlib.Core.Logic.{◌≢◌, ◌⊎◌, inl, inr}
use mathlib.Core.Option
use mathlib.Core.Option.{Option, none, some}
use mathlib.Core.List.{[], ◌∷◌}
use native.Mathlib.Omega.{arith}
use text.Mathlib.Text.{◌==◌}
use text.Mathlib.TextEquality.{eq_iff}
use text.Mathlib.TextPositions.{eq_refl}
use otters.Base.Tests.{if◌then◌else◌, ne→eq_false, Bool-cases}
use otters.Base.Lists.{In}
use otters.Base.Dict.Defs.{
  Bindings, Dict, key_list, lookup, put, without_key, update, empty, get, insert, remove, modify,
  keys, values, value_list,
}

module _ {ℓ} {V : Type ℓ} where
  pub lookup-put :
      (k j : String) (v : V) (l : Bindings V)
      → lookup j (put k v l) ≡ (if k == j then some v else lookup j l)
  unfolding lookup put
  lookup-put k j v [] = refl
  lookup-put k j v ((i, w) ∷ l) =
      ground (arith, eq_iff k j, eq_iff i k, eq_iff i j, lookup-put k j v l)

  pub lookup-without_key :
      (k j : String) (l : Bindings V)
      → lookup j (without_key k l) ≡ (if k == j then none else lookup j l)
  unfolding lookup without_key
  lookup-without_key k j [] = ground arith
  lookup-without_key k j ((i, v) ∷ l) =
      ground (arith, lookup-without_key k j l, eq_iff i k, eq_iff i j, eq_iff k j)

  lookup-update :
      (k j : String) (f : V → V) (l : Bindings V)
      → lookup j (update k f l) ≡ (if k == j then Option.map f (lookup j l) else lookup j l)
  unfolding lookup update
  lookup-update k j f [] = ground arith
  lookup-update k j f ((i, w) ∷ l) =
      ground (arith, eq_iff k j, eq_iff i k, eq_iff i j, lookup-update k j f l)

  pub get-empty : (k : String) → get (empty {V = V}) k ≡ none
  unfolding get empty
  get-empty k = refl

  pub get-insert :
      (d : Dict V) (k j : String) (v : V)
      → get (insert d k v) j ≡ (if k == j then some v else get d j)
  unfolding get insert
  get-insert d k j v = lookup-put k j v d.entries

  pub get-remove :
      (m : Dict V) (k j : String) → get (remove m k) j ≡ (if k == j then none else get m j)
  unfolding get remove
  get-remove m k j = lookup-without_key k j m.entries

  pub get-modify :
      (d : Dict V) (k j : String) (f : V → V)
      → get (modify d k f) j ≡ (if k == j then Option.map f (get d j) else get d j)
  unfolding get modify
  get-modify d k j f = lookup-update k j f d.entries

  pub get-insert_self : (d : Dict V) (k : String) (v : V) → get (insert d k v) k ≡ some v
  get-insert_self d k v = rw (get-insert d k k v, eq_refl k)

  pub get-insert_ne : (d : Dict V) (k j : String) (v : V) → k ≢ j → get (insert d k v) j ≡ get d j
  get-insert_ne d k j v h = rw (get-insert d k j v, ne→eq_false k j h)

pub ruleset dict_laws = (get-empty, get-insert, get-remove, get-modify)

module _ {ℓ} {V : Type ℓ} where
  In-key_list : (l : Bindings V) (k : String) (v : V) → lookup k l ≡ some v → In k (key_list l)
  unfolding lookup key_list
  In-key_list [] k v h = cc
  In-key_list ((j, w) ∷ l) k v h = elim (Bool-cases (j == k)) [
    | inl y ↦ inl (sym ((eq_iff j k).0 y))
    | inr n ↦ inr (In-key_list l k v (rw n at h))
  ]

  -- The keys are those that a lookup finds.
  pub In-keys : (d : Dict V) (k : String) (v : V) → get d k ≡ some v → In k (keys d)
  unfolding get keys
  In-keys d k v h = In-key_list d.entries k v h

module _ {V : Type 0} where
  In-value_list : (l : Bindings V) (k : String) (v : V) → lookup k l ≡ some v → In v (value_list l)
  unfolding lookup value_list
  In-value_list [] k v h = cc
  In-value_list ((j, w) ∷ l) k v h = elim (Bool-cases (j == k)) [
    | inl y ↦ inl (sym (Option.some-injective _ _ (rw y at h)))
    | inr n ↦ inr (In-value_list l k v (rw n at h))
  ]

  -- The values are those that a lookup finds.
  pub In-values : (d : Dict V) (k : String) (v : V) → get d k ≡ some v → In v (values d)
  unfolding get values
  In-values d k v h = In-value_list d.entries k v h

  -- What a lookup finds after an insertion is the new value, or was there.
  pub get-insert_cases :
      (d : Dict V) (k j : String) (x v : V)
      → get (insert d k x) j ≡ some v
      → ((k ≡ j) × (v ≡ x)) ⊎ (get d j ≡ some v)
  get-insert_cases d k j x v h = elim (Bool-cases (k == j)) [
    | inl y ↦
        inl ((eq_iff k j).0 y, sym (Option.some-injective _ _ (rw (get-insert d k j x, y) at h)))
    | inr n ↦ inr (rw (get-insert d k j x, n) at h)
  ]

  -- What a lookup finds after a removal was there.
  pub get-remove-some :
      (d : Dict V) (k j : String) (v : V) → get (remove d k) j ≡ some v → get d j ≡ some v
  get-remove-some d k j v h = elim (Bool-cases (k == j)) [
    | inl y ↦ absurd (cc (rw (get-remove d k j, y) at h))
    | inr n ↦ rw (get-remove d k j, n) at h
  ]
