-- ===== src/Common/HashSet.antt =====
-- `HashSet`: a list, in an order that nothing relies on, without duplicates if it starts without.
use mathlib.Core.Path.{◌≡◌, refl}
use mathlib.Core.Bool.{Bool, true, false, ◌&&◌}
use mathlib.Core.List.{List, [], ◌∷◌, ◌++◌}
use native.Mathlib.Omega.{arith}
use your_connector.Common.Tests.{if◌then◌else◌}
use your_connector.Common.Equality.{Eq, ◌==◌}

abbrev pub HashSet : Type 0 → Type 0
HashSet K = List K

module _ {K : Type 0} ⦃e : Eq K⦄ where
  unfoldable pub contains : K → HashSet K → Bool
  contains k [] = false
  contains k (j ∷ s) = let rest = contains k s in if k == j then true else rest

  unfoldable pub insert : K → HashSet K → HashSet K
  unfolding contains
  insert k s = if contains k s then s else s ++ k ∷ []

  unfoldable pub retain : (K → Bool) → HashSet K → HashSet K
  retain p [] = []
  retain p (j ∷ s) = let rest = retain p s in if p j then j ∷ rest else rest

  unfoldable pub remove : K → HashSet K → HashSet K
  remove k [] = []
  remove k (j ∷ s) = let rest = remove k s in if k == j then rest else j ∷ rest

  -- `s == t`
  unfoldable pub is_subset : HashSet K → HashSet K → Bool
  is_subset [] t = true
  is_subset (j ∷ s) t = let rest = is_subset s t in if contains j t then rest else false

  pub contains-append :
      (j k : K) (s : HashSet K) → contains j (s ++ k ∷ []) ≡ (if j == k then true else contains j s)
  unfolding contains
  contains-append j k [] = refl
  contains-append j k (i ∷ s) = ground (arith, contains-append j k s)

  pub contains-insert :
      (j k : K) (s : HashSet K) → contains j (insert k s) ≡ (if j == k then true else contains j s)
  unfolding insert
  contains-insert j k s = ground (arith, contains-append j k s)

  pub contains-retain :
      (j : K) (p : K → Bool) (s : HashSet K) → contains j (retain p s) ≡ (p j && contains j s)
  unfolding contains retain
  contains-retain j p [] = ground arith
  contains-retain j p (i ∷ s) = ground (arith, contains-retain j p s)

  pub contains-remove :
      (j k : K) (s : HashSet K) → contains j (remove k s) ≡ (if j == k then false else contains j s)
  unfolding contains remove
  contains-remove j k [] = ground arith
  contains-remove j k (i ∷ s) = ground (arith, contains-remove j k s)

-- `s == t`
unfoldable pub same_set : {K : Type 0} ⦃e : Eq K⦄ → HashSet K → HashSet K → Bool
unfolding is_subset
same_set s t = is_subset s t && is_subset t s
