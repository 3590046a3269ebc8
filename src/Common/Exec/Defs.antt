-- ===== src/Common/Exec/Defs.antt =====
-- Methods that change shared state and may fail. What was written before an error stays written,
-- so the state comes back beside the error too.
use mathlib.Core.Path.{◌≡◌, refl}
use your_connector.Common.Results.{Result, ok, err}

abbrev pub Exec : Type 0 → Type 0 → Type 0 → Type 0
Exec S E A = S → Result E A × S

module _ {S E A : Type 0} where
  abbrev pub pure : A → Exec S E A
  pure a s = (ok a, s)

  abbrev pub lift : Result E A → Exec S E A
  lift r s = (r, s)

  abbrev pub gets : (S → A) → Exec S E A
  gets read before = (ok (read before), before)

module _ {S E : Type 0} where
  abbrev pub modify : (S → S) → Exec S E (Unit {0})
  modify f s = (ok tt, f s)

module _ {S E A B : Type 0} where
  abbrev pub continue : Result E A → (A → Exec S E B) → Exec S E B
  continue (ok a) f s = f a s
  continue (err e) f s = (err e, s)

  infixl 5 ◌>>=◌ ◌>>◌
  abbrev pub ◌>>=◌ : Exec S E A → (A → Exec S E B) → Exec S E B
  ◌>>=◌ first rest before = let (outcome, after) = first before in continue outcome rest after

  abbrev pub ◌>>◌ : Exec S E A → Exec S E B → Exec S E B
  first >> rest = first >>= λ ignored. rest

-- `m` keeps `P`, whether it returns or fails.
pub record Keeps {S E A : Type 0} (P : S → Type 0) (m : Exec S E A) : Type 0 where
  pub at : (before : S) → P before → P (m before).1

module _ {S E A : Type 0} {P : S → Type 0} where
  pub Keeps-pure : (value : A) → Keeps P (pure {E = E} value)
  Keeps-pure value = record { at = λ before holds. holds }

  pub Keeps-lift : (outcome : Result E A) → Keeps P (lift outcome)
  Keeps-lift outcome = record { at = λ before holds. holds }

  pub Keeps-gets : (read : S → A) → Keeps P (gets {E = E} read)
  Keeps-gets read = record { at = λ before holds. holds }

module _ {S E : Type 0} {P : S → Type 0} where
  pub Keeps-modify : (f : S → S) → ((s : S) → P s → P (f s)) → Keeps P (modify {E = E} f)
  Keeps-modify f k = record { at = k }

module _ {S E A B : Type 0} {P : S → Type 0} where
  -- the rest of the block may use what `r` returned
  pub Keeps-bind-lift :
      (outcome : Result E A) (rest : A → Exec S E B)
      → ((value : A) → outcome ≡ ok value → Keeps P (rest value))
      → Keeps P (lift outcome >>= rest)
  Keeps-bind-lift (ok value) rest keeps = keeps value refl
  Keeps-bind-lift (err e) rest keeps = record { at = λ before holds. holds }

  pub Keeps-bind :
      (first : Exec S E A) (rest : A → Exec S E B)
      → Keeps P first
      → ((value : A) → Keeps P (rest value))
      → Keeps P (first >>= rest)
  Keeps-bind first rest keeps_first keeps_rest = record {
    at = λ before holds.
        (Keeps-bind-lift (first before).0 rest (λ value returned. keeps_rest value)).at
          (first before).1 (keeps_first.at before holds);
  }

module _ {S E A B : Type 0} where
  -- A block that returns has returned from its first step.
  pub >>=-eq-ok :
      (m : Exec S E A) (f : A → Exec S E B) (s : S) (b : B)
      → ((m >>= f) s).0 ≡ ok b
      → (a : A) × ((m s).0 ≡ ok a) × ((f a (m s).1).0 ≡ ok b)
  >>=-eq-ok m f s b h = first (m s) h
    where
      first :
          (p : Result E A × S)
          → (continue p.0 f p.1).0 ≡ ok b
          → (a : A) × (p.0 ≡ ok a) × ((f a p.1).0 ≡ ok b)
      first (ok a, s') e = (a, refl, e)
      first (err x, s') e = cc

pub ruleset keeps_rules = (Keeps-pure, Keeps-lift, Keeps-gets, Keeps-modify, Keeps-bind)
