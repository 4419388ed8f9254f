-- ===== src/Base/Exec.antt =====
-- Code that changes a state and may fail: what was written before a failure stays written.
use mathlib.Core.Path.{◌≡◌, refl, ap, ◌∙◌}
use mathlib.Core.Bool.{Bool, true, false}
use otters.Base.Tests.{if◌then◌else◌}
use otters.Base.Result.{Result, ok, err, map_err}

abbrev pub Exec : Type 0 → Type 0 → Type 0 → Type 0
Exec S E A = S → Result E A × S

module _ {S E A : Type 0} where
  unfoldable pub pure : A → Exec S E A
  pure a s = (ok a, s)

  unfoldable pub raise : E → Exec S E A
  raise e s = (err e, s)

  -- A pure computation that may fail.
  unfoldable pub lift : Result E A → Exec S E A
  lift r s = (r, s)

  unfoldable pub gets : (S → A) → Exec S E A
  gets f s = (ok (f s), s)

module _ {S E F A : Type 0} where
  -- `map_err(f)`
  unfoldable pub mapping : (E → F) → Exec S E A → Exec S F A
  mapping f m s = let (r, s') = m s in (map_err f r, s')

module _ {S E A B : Type 0} where
  abbrev pub continue : Result E A → (A → Exec S E B) → Exec S E B
  continue (ok a) f s = f a s
  continue (err e) f s = (err e, s)

  infixl 5 ◌>>=◌ ◌>>◌
  -- `?` and `await?`. Opening this opens the ways to build an action too.
  unfoldable pub ◌>>=◌ : Exec S E A → (A → Exec S E B) → Exec S E B
  unfolding pure raise lift gets
  ◌>>=◌ m f s = let (r, s') = m s in continue r f s'

  abbrev pub ◌>>◌ : Exec S E A → Exec S E B → Exec S E B
  m >> n = m >>= λ _. n

module _ {E F A : Type 0} where
  pub map_err-ok : (f : E → F) (r : Result E A) (a : A) → map_err f r ≡ ok a → r ≡ ok a
  map_err-ok f (ok b) a h = cc
  map_err-ok f (err e) a h = cc

module _ {S E F A : Type 0} where
  -- What a run that returned came from.
  pub mapping-ok :
      (f : E → F) (m : Exec S E A) (a : A) (s t : S) → mapping f m s ≡ (ok a, t) → m s ≡ (ok a, t)
  unfolding mapping
  mapping-ok f m a s t h = cc (map_err-ok f (m s).0 a (ap (λ x. x.0) h), ap (λ x. x.1) h)

  pub mapping_returns :
      (f : E → F) (m : Exec S E A) (a : A) (s t : S) → m s ≡ (ok a, t) → mapping f m s ≡ (ok a, t)
  unfolding mapping
  mapping_returns f m a s t h = ap (λ x. (map_err f x.0, x.1)) h

module _ {S E A B : Type 0} where
  pub bind_returns :
      (m : Exec S E A) (f : A → Exec S E B) (a : A) (b : B) (s t u : S)
      → m s ≡ (ok a, t)
      → f a t ≡ (ok b, u)
      → (m >>= f) s ≡ (ok b, u)
  unfolding ◌>>=◌
  bind_returns m f a b s t u h k = ap (λ x. continue x.0 f x.1) h ∙ k

  continue-ok :
      (r : Result E A) (f : A → Exec S E B) (b : B) (s t : S)
      → continue r f s ≡ (ok b, t)
      → (a : A) × (r ≡ ok a) × (f a s ≡ (ok b, t))
  continue-ok (ok a) f b s t h = (a, refl, h)
  continue-ok (err e) f b s t h = absurd (cc (ap (λ x. x.0) h))

  pub bind-ok :
      (m : Exec S E A) (f : A → Exec S E B) (b : B) (s t : S)
      → (m >>= f) s ≡ (ok b, t)
      → (a : A) × (m s ≡ (ok a, (m s).1)) × (f a (m s).1 ≡ (ok b, t))
  unfolding ◌>>=◌
  bind-ok m f b s t h =
      let (a, e, rest) = continue-ok (m s).0 f b (m s).1 t h in (a, ap (λ r. (r, (m s).1)) e, rest)

  pub bind-err :
      (m : Exec S E A) (f : A → Exec S E B) (e : E) (s : S)
      → (m s).0 ≡ err e
      → ((m >>= f) s).0 ≡ err e
  unfolding ◌>>=◌
  bind-err m f e s h = ap (λ r. (continue r f (m s).1).0) h

-- `m` keeps `P`, whether it returns or fails.
pub record Keeps {S E A : Type 0} (P : S → Type 0) (m : Exec S E A) : Type 0 where
  pub at : (s : S) → P s → P (m s).1

module _ {S E A : Type 0} {P : S → Type 0} where
  pub Keeps-pure : (a : A) → Keeps P (pure {E = E} a)
  unfolding pure
  Keeps-pure a = record { at = λ s h. h }

  pub Keeps-raise : (e : E) → Keeps P (raise {A = A} e)
  unfolding raise
  Keeps-raise e = record { at = λ s h. h }

  pub Keeps-lift : (r : Result E A) → Keeps P (lift r)
  unfolding lift
  Keeps-lift r = record { at = λ s h. h }

  pub Keeps-gets : (f : S → A) → Keeps P (gets {E = E} f)
  unfolding gets
  Keeps-gets f = record { at = λ s h. h }

  pub Keeps-if :
      (b : Bool) (m n : Exec S E A) → Keeps P m → Keeps P n → Keeps P (if b then m else n)
  Keeps-if true m n km kn = km
  Keeps-if false m n km kn = kn

module _ {S E F A : Type 0} {P : S → Type 0} where
  pub Keeps-mapping : (f : E → F) (m : Exec S E A) → Keeps P m → Keeps P (mapping f m)
  unfolding mapping
  Keeps-mapping f m km = record { at = λ s h. km.at s h }

module _ {S E A B : Type 0} {P : S → Type 0} where
  Keeps-continue :
      (r : Result E A) (f : A → Exec S E B)
      → ((a : A) → r ≡ ok a → Keeps P (f a))
      → Keeps P (continue r f)
  Keeps-continue (ok a) f kf = record { at = λ s h. (kf a refl).at s h }
  Keeps-continue (err e) f kf = record { at = λ s h. h }

  pub Keeps-bind :
      (first : Exec S E A) (next : A → Exec S E B)
      → Keeps P first
      → ((a : A) → Keeps P (next a))
      → Keeps P (first >>= next)
  unfolding ◌>>=◌
  Keeps-bind first next kept keeps = record {
    at = λ s h.
        let (outcome, after) = first s in
        (Keeps-continue outcome next (λ a _. keeps a)).at after (kept.at s h);
  }

pub ruleset keeps_rules =
    (Keeps-pure, Keeps-raise, Keeps-lift, Keeps-gets, Keeps-if, Keeps-mapping, Keeps-bind)
