-- ===== src/Sidecar/Session/Queue/Keys.antt =====
-- Association lists in which each key stands once, and counts of keys.
use your_connector.Common.{
  ℕ, suc, ◌+◌, ◌≡◌, refl, none, some, List, [], ◌∷◌, ◌++◌, Eq, ◌==◌, arith, if◌then◌else◌,
}
use your_connector.Common.HashMap
use your_connector.Common.HashMap.{HashMap, get-insert}

module _ {K V : Type 0} ⦃e : Eq K⦄ where
  abbrev pub keys : HashMap K V → List K
  keys [] = []
  keys ((k, _) ∷ m) = k ∷ keys m

  abbrev pub NodupKeys : HashMap K V → Type 0
  NodupKeys [] = Unit {0}
  NodupKeys ((k, _) ∷ m) = (HashMap.get k m ≡ none) × NodupKeys m

  abbrev pub count_key : K → HashMap K V → ℕ
  count_key k [] = 0
  count_key k ((j, _) ∷ m) = let rest = count_key k m in if k == j then suc rest else rest

  pub keys-insert_present :
      (k : K) (v w : V) (m : HashMap K V)
      → HashMap.get k m ≡ some w
      → keys (HashMap.insert k v m) ≡ keys m
  unfolding HashMap.get HashMap.insert
  keys-insert_present k v w [] h = cc
  keys-insert_present k v w ((j, x) ∷ m) h = ground (arith, keys-insert_present k v w m)

  pub keys-insert_absent :
      (k : K) (v : V) (m : HashMap K V)
      → HashMap.get k m ≡ none
      → keys (HashMap.insert k v m) ≡ keys m ++ k ∷ []
  unfolding HashMap.get HashMap.insert
  keys-insert_absent k v [] h = refl
  keys-insert_absent k v ((j, x) ∷ m) h = ground (arith, keys-insert_absent k v m)

  pub insert-NodupKeys :
      (k : K) (v : V) (m : HashMap K V) → NodupKeys m → NodupKeys (HashMap.insert k v m)
  unfolding HashMap.get HashMap.insert
  insert-NodupKeys k v [] u = (refl, tt)
  insert-NodupKeys k v ((j, x) ∷ m) (fresh, u) =
      ground (arith, insert-NodupKeys k v m u, get-insert j k v m)

  pub count_key-append :
      (k j : K) (v : V) (m : HashMap K V)
      → count_key k (m ++ (j, v) ∷ []) ≡ count_key k m + (if k == j then 1 else 0)
  count_key-append k j v [] = ground arith
  count_key-append k j v ((i, x) ∷ m) = ground (arith, count_key-append k j v m)
