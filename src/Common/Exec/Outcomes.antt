-- ===== src/Common/Exec/Outcomes.antt =====
-- Two more rules for blocks: what a block that returns has brought about, and blocks that cannot
-- return.
use mathlib.Core.Path.{◌≡◌, refl}
use mathlib.Core.Bool.{false}
use your_connector.Common.Results.{Result, ok, err, is_ok}
use your_connector.Common.Exec.Defs.{Exec, lift, gets, modify, continue, ◌>>=◌, Keeps}

-- When `m` returns, `P` holds of the state that it leaves.
pub record Makes {S E A : Type 0} (P : S → Type 0) (m : Exec S E A) : Type 0 where
  pub at : (s : S) (a : A) → (m s).0 ≡ ok a → P (m s).1

-- From a state with `P`, `m` does not return.
pub record Fails {S E A : Type 0} (P : S → Type 0) (m : Exec S E A) : Type 0 where
  pub at : (s : S) → P s → is_ok (m s).0 ≡ false

module _ {S E : Type 0} {P : S → Type 0} where
  pub Makes-modify : (f : S → S) → ((s : S) → P (f s)) → Makes P (modify {E = E} f)
  Makes-modify f k = record { at = λ s a _. k s }

module _ {S E A B : Type 0} {P : S → Type 0} where
  -- the first step brings it about, and the rest keeps it
  pub Makes-bind-first :
      (m : Exec S E A) (f : A → Exec S E B)
      → Makes P m
      → ((a : A) → Keeps P (f a))
      → Makes P (m >>= f)
  Makes-bind-first m f mm kf = record { at = λ s b h. step (m s) (λ a e. mm.at s a e) b h }
    where
      step :
          (p : Result E A × S)
          → ((a : A) → p.0 ≡ ok a → P p.1)
          → (b : B) → (continue p.0 f p.1).0 ≡ ok b
          → P (continue p.0 f p.1).1
      step (ok a, s') made b h = (kf a).at s' (made a refl)
      step (err x, s') made b h = cc

  pub Makes-bind-rest :
      (m : Exec S E A) (f : A → Exec S E B) → ((a : A) → Makes P (f a)) → Makes P (m >>= f)
  Makes-bind-rest m f mf = record { at = λ s b h. step (m s) b h }
    where
      step : (p : Result E A × S) (b : B) → (continue p.0 f p.1).0 ≡ ok b → P (continue p.0 f p.1).1
      step (ok a, s') b h = (mf a).at s' b h
      step (err x, s') b h = cc

  pub Makes-bind-lift :
      (r : Result E A) (f : A → Exec S E B)
      → ((a : A) → r ≡ ok a → Makes P (f a))
      → Makes P (lift r >>= f)
  Makes-bind-lift (ok a) f mf = mf a refl
  Makes-bind-lift (err x) f mf = record { at = λ s b h. cc }

  -- where the result of the first step is known
  pub Makes-bind-ok : (a : A) (f : A → Exec S E B) → Makes P (f a) → Makes P (lift (ok a) >>= f)
  Makes-bind-ok a f mf = record { at = λ s b h. mf.at s b h }

  pub Fails-bind-ok : (a : A) (f : A → Exec S E B) → Fails P (f a) → Fails P (lift (ok a) >>= f)
  Fails-bind-ok a f ff = record { at = λ s h. ff.at s h }

  pub Fails-bind-lift :
      (r : Result E A) (f : A → Exec S E B)
      → ((a : A) → r ≡ ok a → Fails P (f a))
      → Fails P (lift r >>= f)
  Fails-bind-lift (ok a) f ff = ff a refl
  Fails-bind-lift (err x) f ff = record { at = λ s h. refl }

  pub Fails-bind :
      (m : Exec S E A) (f : A → Exec S E B)
      → Keeps P m
      → ((a : A) → Fails P (f a))
      → Fails P (m >>= f)
  Fails-bind m f km ff = record { at = λ s h. step (m s) (km.at s h) }
    where
      step : (p : Result E A × S) → P p.1 → is_ok (continue p.0 f p.1).0 ≡ false
      step (ok a, s') h = (ff a).at s' h
      step (err x, s') h = refl

-- a pure check of what was read from the state
module _ {S E A B C : Type 0} {P : S → Type 0} where
  pub Fails-gets-lift :
      (g : S → A) (r : A → Result E B) (k : A → B → Exec S E C)
      → ((s : S) → P s → is_ok (r (g s)) ≡ false)
      → Fails P (gets g >>= λ a. lift (r a) >>= k a)
  Fails-gets-lift g r k f = record { at = λ s h. step s (r (g s)) (f s h) }
    where
      step : (s : S) (x : Result E B) → is_ok x ≡ false → is_ok (continue x (k (g s)) s).0 ≡ false
      step s (ok b) e = cc
      step s (err e) _ = refl

pub ruleset fails_rules = (Fails-bind-ok, Fails-bind-lift, Fails-bind)

pub ruleset makes_rules = (Makes-bind-ok, Makes-bind-rest)
