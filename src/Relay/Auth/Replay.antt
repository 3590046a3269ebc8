-- ===== src/Relay/Auth/Replay.antt =====
-- `consume_auth_nonce` of services/relay/src/state.rs: for how long a signed request is refused.
use your_connector.Common.{
  ℕ, ◌+◌, ◌≤◌, ◌<◌, ◌≡◌, refl, Bool, true, false, not, String, ◌<>◌, ◌||◌, ◌≢◌, List, [], ◌∷◌,
  Result, ok, is_ok, All, Bool-cases, inl, inr, arith, saturating_add, ltb, u64_max, string_eq,
  if◌then◌else◌,
}
use your_connector.Common.HashMap
use your_connector.Common.HashMap.{get-insert, get-retain}
use your_connector.Common.Text.{trim, is_empty}
use your_connector.Relay.Api.{ApiError, pop_max_skew_sec}
use your_connector.Relay.Auth.Pop.{verify_ts_window}
use your_connector.Relay.Nonces.{
  Nonces, prune, seen, IsSpent, IsSpent-insert, IsSpent-insert_ne, IsSpent-prune, seen_of_IsSpent,
  seen-prune, seen-insert,
}
use your_connector.Relay.State.{AppState, consume_auth_nonce}

-- One call of `consume_auth_nonce`.
pub record Use : Type 0 where
  pub now : ℕ
  pub scope : String
  pub nonce : String
  pub ts : ℕ

abbrev pub consume : AppState → Use → Result ApiError (Unit {0}) × AppState
consume s u = consume_auth_nonce u.now u.scope u.nonce u.ts s

pub run_uses : AppState → List Use → AppState
run_uses s [] = s
run_uses s (u ∷ us) = run_uses (consume s u).1 us

abbrev pub key_of : Use → String
key_of u = u.scope <> (":" <> trim u.nonce)

abbrev expiry_of : Use → ℕ
expiry_of u = saturating_add u.now pop_max_skew_sec

-- the tests before the nonce is looked up
abbrev is_refused : Use → Bool
is_refused u = is_empty (trim u.nonce) || ltb (expiry_of u) u.ts

consume_refused :
    (s : AppState) (u : Use)
    → is_refused u ≡ true
    → (is_ok (consume s u).0 ≡ false) × ((consume s u).1.auth_nonces ≡ s.auth_nonces)
unfolding consume_auth_nonce
consume_refused s u h = elim (Bool-cases (is_empty (trim u.nonce))) [
  | inl blank ↦ rw blank (refl, refl)
  | inr named ↦
      let late : ltb (expiry_of u) u.ts ≡ true = ground arith in rw (named, late) (refl, refl)
]

consume_looked_up :
    (s : AppState) (u : Use) (old : Bool)
    → is_refused u ≡ false
    → seen u.now (key_of u) (prune 5 u.now s.auth_nonces) ≡ old
    → (is_ok (consume s u).0 ≡ not old)
      × ((consume s u).1.auth_nonces ≡ (
          let pruned = prune 5 u.now s.auth_nonces in
          if old then pruned else HashMap.insert (key_of u) (expiry_of u) pruned))
unfolding consume_auth_nonce
consume_looked_up s u true h e =
    let named : is_empty (trim u.nonce) ≡ false = ground arith in
    let timely : ltb (expiry_of u) u.ts ≡ false = ground arith in rw (named, timely, e) (refl, refl)
consume_looked_up s u false h e =
    let named : is_empty (trim u.nonce) ≡ false = ground arith in
    let timely : ltb (expiry_of u) u.ts ≡ false = ground arith in rw (named, timely, e) (refl, refl)

consume-IsSpent :
    (s : AppState) (u : Use) (key : String) (until : ℕ)
    → u.now < until
    → IsSpent key until s.auth_nonces
    → IsSpent key until (consume s u).1.auth_nonces
consume-IsSpent s u key until h spent = elim (Bool-cases (is_refused u)) [
  | inl refused ↦ rw (consume_refused s u refused).1 spent
  | inr passed ↦ elim (Bool-cases (seen u.now (key_of u) pruned)) [
    | inl old ↦ rw (consume_looked_up s u true passed old).1 kept
    | inr new ↦
        rw (consume_looked_up s u false passed new).1
          (IsSpent-insert_ne key (key_of u) until (expiry_of u) pruned (differ new) kept)
  ]
]
  where
    pruned : Nonces
    pruned = prune 5 u.now s.auth_nonces

    kept : IsSpent key until pruned
    kept = IsSpent-prune key until 5 u.now s.auth_nonces (omega arith) h spent

    differ : seen u.now (key_of u) pruned ≡ false → key ≢ key_of u
    differ new e = cc (seen_of_IsSpent key until u.now pruned h kept)

consume_accepted :
    (s : AppState) (u : Use)
    → is_ok (consume s u).0 ≡ true
    → IsSpent (key_of u) (expiry_of u) (consume s u).1.auth_nonces
unfolding saturating_add
consume_accepted s u h = elim (Bool-cases (is_refused u)) [
  | inl refused ↦ absurd (cc ((consume_refused s u refused).0))
  | inr passed ↦ elim (Bool-cases (seen u.now (key_of u) pruned)) [
    | inl old ↦ absurd (cc ((consume_looked_up s u true passed old).0))
    | inr new ↦
        rw (consume_looked_up s u false passed new).1
          (IsSpent-insert (key_of u) (expiry_of u) (expiry_of u) pruned (omega arith) (omega arith))
  ]
]
  where
    pruned : Nonces
    pruned = prune 5 u.now s.auth_nonces

run_uses-IsSpent :
    (s : AppState) (us : List Use) (key : String) (until now : ℕ)
    → now < until
    → All (λ u. u.now ≤ now) us
    → IsSpent key until s.auth_nonces
    → IsSpent key until (run_uses s us).auth_nonces
unfolding run_uses
run_uses-IsSpent s [] key until now h before spent = spent
run_uses-IsSpent s (u ∷ us) key until now h (first, before) spent =
    run_uses-IsSpent (consume s u).1 us key until now h before
      (consume-IsSpent s u key until (omega arith) spent)

-- After a signed request whose nonce was accepted, no request of the same scope with the same nonce
-- is accepted within 120 seconds of it, whatever nonces of other requests were accepted or refused
-- in between.
pub replay_refused :
    (s : AppState) (first : Use) (between : List Use) (again : Use)
    → is_ok (consume s first).0 ≡ true
    → key_of again ≡ key_of first
    → again.now < saturating_add first.now pop_max_skew_sec
    → All (λ u. u.now ≤ again.now) between
    → is_ok (consume (run_uses (consume s first).1 between) again).0 ≡ false
replay_refused s first between again accepted same early before =
    let t = run_uses (consume s first).1 between in
    let spent =
      run_uses-IsSpent (consume s first).1 between (key_of first) (expiry_of first) again.now early
        before (consume_accepted s first accepted) in
    elim (Bool-cases (is_refused again)) [
      | inl refused ↦ (consume_refused t again refused).0
      | inr passed ↦
          (consume_looked_up t again true passed (
            rw same (
              seen_of_IsSpent (key_of first) (expiry_of first) again.now _ early (
                IsSpent-prune (key_of first) (expiry_of first) 5 again.now t.auth_nonces
                  (omega arith) early spent)))).0
    ]

forgotten :
    (s : AppState) (first again : Use)
    → is_ok (consume s first).0 ≡ true
    → key_of again ≡ key_of first
    → saturating_add first.now pop_max_skew_sec ≤ again.now
    → seen again.now (key_of again) (prune 5 again.now (consume s first).1.auth_nonces) ≡ false
forgotten s first again accepted same late = elim (Bool-cases (is_refused first)) [
  | inl refused ↦ absurd (cc ((consume_refused s first refused).0))
  | inr passed ↦
      elim (Bool-cases (seen first.now (key_of first) (prune 5 first.now s.auth_nonces))) [
        | inl old ↦ absurd (cc ((consume_looked_up s first true passed old).0))
        | inr new ↦ seen-prune (key_of again) 5 again.now _ (
            rw ((consume_looked_up s first false passed new).1, same)
              (rw
                (seen-insert (key_of first) again.now (expiry_of first)
                  (prune 5 first.now s.auth_nonces))
                (ground arith)))
      ]
]

accepted_timely : (s : AppState) (u : Use) → is_ok (consume s u).0 ≡ true → is_refused u ≡ false
accepted_timely s u h = elim (Bool-cases (is_refused u)) [
  | inl refused ↦ absurd (cc ((consume_refused s u refused).0))
  | inr passed ↦ passed
]

-- An accepted request is accepted again, time window and nonce, at every second from 120 seconds
-- after its acceptance to 120 seconds after its timestamp. There is such a second if the timestamp
-- is not before the second of the acceptance.
pub replay_accepted :
    (s : AppState) (first : Use) (later : ℕ) (code message : String)
    → is_ok (consume s first).0 ≡ true
    → later ≤ u64_max
    → first.now + pop_max_skew_sec ≤ later
    → later ≤ first.ts + pop_max_skew_sec
    → (verify_ts_window later first.ts code message ≡ ok tt)
      × (is_ok (consume (consume s first).1 (record first { now = later })).0 ≡ true)
unfolding verify_ts_window saturating_add
replay_accepted s first later code message accepted bound late in_window =
    let passed = accepted_timely s first accepted in
    let again = record first { now = later } in
    let passed_again : is_refused again ≡ false = ground arith in
    (
      ground arith,
      (consume_looked_up (consume s first).1 again false passed_again
          (forgotten s first again accepted refl (unfold saturating_add in omega arith))).0,
    )
