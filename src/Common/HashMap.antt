-- ===== src/Common/HashMap.antt =====
-- `HashMap`: an association list, in an order that nothing relies on. Proofs go by the laws.
use mathlib.Core.Path.{◌≡◌, refl}
use mathlib.Core.Bool.{Bool}
use mathlib.Core.Option
use mathlib.Core.Option.{Option, none, some}
use mathlib.Core.List.{List, [], ◌∷◌}
use native.Mathlib.Omega.{arith}
use your_connector.Common.Equality.{Eq, ◌==◌}
use your_connector.Common.Tests.{if◌then◌else◌}

abbrev pub HashMap : Type 0 → Type 0 → Type 0
HashMap K V = List (K × V)

abbrev pub empty : {K V : Type 0} → HashMap K V
empty = []

-- `Option::filter`
abbrev pub keep : {V : Type 0} → (V → Bool) → Option V → Option V
keep p none = none
keep p (some v) = if p v then some v else none

module _ {K V : Type 0} ⦃e : Eq K⦄ where
  unfoldable pub get : K → HashMap K V → Option V
  get k [] = none
  get k ((j, v) ∷ m) = if k == j then some v else get k m

  unfoldable pub insert : K → V → HashMap K V → HashMap K V
  insert k v [] = (k, v) ∷ []
  insert k v ((j, w) ∷ m) = if k == j then (k, v) ∷ m else (j, w) ∷ insert k v m

  unfoldable pub remove : K → HashMap K V → HashMap K V
  remove k [] = []
  remove k ((j, w) ∷ m) = let rest = remove k m in if k == j then rest else (j, w) ∷ rest

  -- a key whose value fails the test goes
  unfoldable pub retain : (V → Bool) → HashMap K V → HashMap K V
  unfolding remove
  retain p [] = []
  retain p ((j, w) ∷ m) = let rest = retain p m in if p w then (j, w) ∷ rest else remove j rest

  unfoldable pub map_values : (V → V) → HashMap K V → HashMap K V
  map_values f [] = []
  map_values f ((j, w) ∷ m) = (j, f w) ∷ map_values f m

  pub get-nil : (k : K) → get k [] ≡ none
  unfolding get
  get-nil k = refl

  pub get-insert :
      (j k : K) (v : V) (m : HashMap K V)
      → get j (insert k v m) ≡ (if j == k then some v else get j m)
  unfolding get insert
  get-insert j k v [] = refl
  get-insert j k v ((i, w) ∷ m) = ground (arith, get-insert j k v m)

  pub get-remove :
      (j k : K) (m : HashMap K V) → get j (remove k m) ≡ (if j == k then none else get j m)
  unfolding get remove
  get-remove j k [] = ground arith
  get-remove j k ((i, w) ∷ m) = ground (arith, get-remove j k m)

  pub get-retain : (j : K) (p : V → Bool) (m : HashMap K V) → get j (retain p m) ≡ keep p (get j m)
  unfolding get retain
  get-retain j p [] = refl
  get-retain j p ((i, w) ∷ m) = ground (arith, get-retain j p m, get-remove j i (retain p m))

  pub get-map_values :
      (j : K) (f : V → V) (m : HashMap K V) → get j (map_values f m) ≡ Option.map f (get j m)
  unfolding get map_values
  get-map_values j f [] = refl
  get-map_values j f ((i, w) ∷ m) = ground (arith, get-map_values j f m)

pub ruleset map_laws = (get-nil, get-insert, get-remove, get-retain, get-map_values)
