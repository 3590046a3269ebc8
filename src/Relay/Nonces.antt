-- ===== src/Relay/Nonces.antt =====
-- The replay caches of the relay: a nonce is kept with the second at which it expires. The same
-- steps stand in auth's `consume_auth_nonce`, in `authorize_app_with_access` and in
-- `verify_pairing_ticket`, with a `grace` of 5, 5 and 30 seconds.
use your_connector.Common.{
  ℕ, ◌≤◌, ◌<◌, ◌≡◌, ◌≢◌, Bool, true, false, Option, none, some, String, arith, ltb, saturating_add,
  string_eq, lt-saturating_add, u64_max, lt→ltb,
}
use your_connector.Common.HashMap
use your_connector.Common.HashMap.{HashMap, map_laws, keep, get-insert, get-retain}

abbrev pub Nonces : Type 0
Nonces = HashMap String ℕ

-- `nonces.retain(|_, exp| exp.saturating_add(grace) > now)`
unfoldable pub prune : ℕ → ℕ → Nonces → Nonces
prune grace now m = HashMap.retain (λ exp. ltb now (saturating_add exp grace)) m

abbrev is_live : ℕ → Option ℕ → Bool
is_live now none = false
is_live now (some exp) = ltb now exp

-- `if let Some(exp) = nonces.get(nonce) && *exp > now`
unfoldable pub seen : ℕ → String → Nonces → Bool
seen now nonce m = is_live now (HashMap.get nonce m)

-- The nonce stays refused at every second before `until`.
abbrev pub IsSpent : String → ℕ → Nonces → Type 0
IsSpent nonce until m =
    (exp : ℕ) × (HashMap.get nonce m ≡ some exp) × (until ≤ exp) × (exp ≤ u64_max)

pub IsSpent-insert :
    (nonce : String) (until exp : ℕ) (m : Nonces)
    → until ≤ exp
    → exp ≤ u64_max
    → IsSpent nonce until (HashMap.insert nonce exp m)
IsSpent-insert nonce until exp m h k = (exp, rw get-insert (ground arith), h, k)

pub IsSpent-insert_ne :
    (nonce other : String) (until exp : ℕ) (m : Nonces)
    → nonce ≢ other
    → IsSpent nonce until m
    → IsSpent nonce until (HashMap.insert other exp m)
IsSpent-insert_ne nonce other until exp m d (e, found, h, k) =
    (e, rw get-insert (ground arith), h, k)

pub IsSpent-prune :
    (nonce : String) (until grace now : ℕ) (m : Nonces)
    → 0 < grace
    → now < until
    → IsSpent nonce until m
    → IsSpent nonce until (prune grace now m)
unfolding prune
IsSpent-prune nonce until grace now m g t (e, found, h, k) = (
  e,
  rw get-retain
      (ground (arith, lt-saturating_add e grace now, lt→ltb now (saturating_add e grace))),
  h,
  k,
)

-- Before it expires, a spent nonce is seen.
pub seen_of_IsSpent :
    (nonce : String) (until now : ℕ) (m : Nonces)
    → now < until
    → IsSpent nonce until m
    → seen now nonce m ≡ true
unfolding seen
seen_of_IsSpent nonce until now m t (e, found, h, k) = ground arith

-- Pruning makes no nonce seen that was not.
pub seen-prune :
    (nonce : String) (grace now : ℕ) (m : Nonces)
    → seen now nonce m ≡ false
    → seen now nonce (prune grace now m) ≡ false
unfolding seen prune
seen-prune nonce grace now m h = rw get-retain (ground arith)

-- A nonce that the map does not hold is not seen, whatever the time.
pub seen_fresh :
    (nonce : String) (now : ℕ) (m : Nonces) → HashMap.get nonce m ≡ none → seen now nonce m ≡ false
unfolding seen
seen_fresh nonce now m h = ground arith

-- A nonce that was just written is seen until its expiry, and not from then on.
pub seen-insert :
    (nonce : String) (now exp : ℕ) (m : Nonces)
    → seen now nonce (HashMap.insert nonce exp m) ≡ ltb now exp
unfolding seen
seen-insert nonce now exp m = rw get-insert (ground arith)
