-- ===== src/Relay/Pairing/Ticket/Spent.antt =====
-- A ticket is good for one use.
use your_connector.Common.{
  ℕ, ◌≤◌, ◌<◌, ◌≡◌, ◌≢◌, refl, Bool, true, false, List, [], ◌∷◌, String, inl, inr, Result, ok, err,
  All, Bool-cases, Option-cases, arith, leb, if◌then◌else◌, saturating_add, string_eq, u64_max,
}
use your_connector.Common.HashMap
use your_connector.Common.Text.{split, part}
use your_connector.Relay.Api.{PairTicketClaims, PairTicketError, expired, replay}
use your_connector.Relay.External.{Crypto, ReadsU64}
use your_connector.Relay.Nonces.{
  Nonces, prune, seen, IsSpent, IsSpent-insert, IsSpent-insert_ne, IsSpent-prune, seen_of_IsSpent,
}
use your_connector.Relay.Pairing.Ticket.{
  read_ticket, check_claims, settle, use_nonce, check_ticket, verify_pairing_ticket,
}

use_nonce-IsSpent :
    (now : ℕ) (t : PairTicketClaims) (m : Nonces) (consume : Bool) (nonce : String) (until : ℕ)
    → now < until
    → IsSpent nonce until m
    → IsSpent nonce until (use_nonce now t m consume).1
unfolding use_nonce
use_nonce-IsSpent now t m consume nonce until h spent =
    elim (Bool-cases (seen now t.nonce pruned)) [
      | inl old ↦ rw old kept
      | inr new ↦ rw new (inserted new consume)
    ]
  where
    pruned : Nonces
    pruned = prune 30 now m

    kept : IsSpent nonce until pruned
    kept = IsSpent-prune nonce until 30 now m (omega arith) h spent

    differ : seen now t.nonce pruned ≡ false → nonce ≢ t.nonce
    differ new e = cc (seen_of_IsSpent nonce until now pruned h kept)

    inserted :
        seen now t.nonce pruned ≡ false
        → (b : Bool)
        → IsSpent nonce until (if b then HashMap.insert t.nonce t.exp pruned else pruned)
    inserted new true = IsSpent-insert_ne nonce t.nonce until t.exp pruned (differ new) kept
    inserted new false = kept

-- the end of an accepted verification: the nonce was new, and it is spent if consumed
use_nonce_accepted :
    (now : ℕ) (t : PairTicketClaims) (m : Nonces)
    → t.exp ≤ u64_max
    → (use_nonce now t m true).0 ≡ ok tt
    → IsSpent t.nonce t.exp (use_nonce now t m true).1
unfolding use_nonce
use_nonce_accepted now t m bound h = elim (Bool-cases (seen now t.nonce (prune 30 now m))) [
  | inl old ↦ absurd (impossible old h)
  | inr new ↦ rw new (IsSpent-insert t.nonce t.exp t.exp (prune 30 now m) (omega arith) bound)
]
  where
    impossible : seen now t.nonce (prune 30 now m) ≡ true → (use_nonce now t m true).0 ≡ ok tt → ⊥
    impossible old p = ground arith

use_nonce_replayed :
    (now : ℕ) (t : PairTicketClaims) (m : Nonces) (consume : Bool)
    → now < t.exp
    → IsSpent t.nonce t.exp m
    → (use_nonce now t m consume).0 ≡ err replay
unfolding use_nonce
use_nonce_replayed now t m consume h spent = rw (
    seen_of_IsSpent t.nonce t.exp now (prune 30 now m) h
      (IsSpent-prune t.nonce t.exp 30 now m (omega arith) h spent))

settle-IsSpent :
    (now : ℕ) (m : Nonces) (consume : Bool) (r : Result PairTicketError PairTicketClaims)
    (nonce : String) (until : ℕ)
    → now < until
    → IsSpent nonce until m
    → IsSpent nonce until (settle now m consume r).1
unfolding settle
settle-IsSpent now m consume (err e) nonce until h spent = spent
settle-IsSpent now m consume (ok t) nonce until h spent =
    use_nonce-IsSpent now t m consume nonce until h spent

settle_accepted :
    (now : ℕ) (m : Nonces) (consume : Bool) (r : Result PairTicketError PairTicketClaims)
    → (settle now m consume r).0 ≡ ok tt
    → (t : PairTicketClaims) × (r ≡ ok t) × ((use_nonce now t m consume).0 ≡ ok tt)
unfolding settle
settle_accepted now m consume (err e) h = cc
settle_accepted now m consume (ok t) h = (t, refl, h)

-- One call of `verify_pairing_ticket` on a room's nonces.
pub record Check : Type 0 where
  pub now : ℕ
  pub ticket : String
  pub system_id : String
  pub pair_token : String
  pub consume : Bool

module _ (c : Crypto) where
  abbrev pub verify : Nonces → Check → Result PairTicketError (Unit {0}) × Nonces
  verify m k = verify_pairing_ticket c k.now k.ticket k.system_id k.pair_token m k.consume

  pub run_checks : Nonces → List Check → Nonces
  run_checks m [] = m
  run_checks m (k ∷ ks) = run_checks (verify m k).1 ks

  verify-IsSpent :
      (m : Nonces) (k : Check) (nonce : String) (until : ℕ)
      → k.now < until
      → IsSpent nonce until m
      → IsSpent nonce until (verify m k).1
  unfolding verify_pairing_ticket
  verify-IsSpent m k nonce until h spent = settle-IsSpent k.now m k.consume _ nonce until h spent

  run_checks-IsSpent :
      (m : Nonces) (ks : List Check) (nonce : String) (until now : ℕ)
      → now < until
      → All (λ k. k.now ≤ now) ks
      → IsSpent nonce until m
      → IsSpent nonce until (run_checks m ks)
  unfolding run_checks
  run_checks-IsSpent m [] nonce until now h before spent = spent
  run_checks-IsSpent m (k ∷ ks) nonce until now h (first, before) spent =
      run_checks-IsSpent (verify m k).1 ks nonce until now h before
        (verify-IsSpent m k nonce until (omega arith) spent)

  check_ticket_parts :
      (now : ℕ) (ticket system_id pair_token : String) (t : PairTicketClaims)
      → check_ticket c now ticket system_id pair_token ≡ ok t
      → (read_ticket c ticket pair_token ≡ ok t) × (check_claims now system_id t ≡ ok tt)
  unfolding check_ticket
  check_ticket_parts now ticket system_id pair_token t h = ground arith

  -- Of claims that once passed, only the expiry can be refused later.
  check_claims_later :
      (now later : ℕ) (system_id : String) (t : PairTicketClaims)
      → now ≤ later
      → check_claims now system_id t ≡ ok tt
      → check_claims later system_id t ≡ (if leb t.exp later then err expired else ok tt)
  unfolding check_claims saturating_add
  check_claims_later now later system_id t h k = ground arith

  pub read_ticket_bound :
      (json : ReadsU64 c) (ticket pair_token : String) (t : PairTicketClaims)
      → read_ticket c ticket pair_token ≡ ok t
      → t.exp ≤ u64_max
  unfolding read_ticket
  read_ticket_bound json ticket pair_token t h =
      elim (Option-cases (c.b64_decode (part 1 (split b'.' ticket)))) [
        | inl bad ↦ ground arith
        | inr (raw, good) ↦ json raw t (ground arith)
      ]

  check_ticket_again :
      (now later : ℕ) (ticket system_id pair_token : String) (t : PairTicketClaims)
      → read_ticket c ticket pair_token ≡ ok t
      → now ≤ later
      → check_claims now system_id t ≡ ok tt
      → check_ticket c later ticket system_id pair_token
        ≡ (if leb t.exp later then err expired else ok t)
  unfolding check_ticket
  check_ticket_again now later ticket system_id pair_token t read h k =
      ground (arith, check_claims_later now later system_id t h k)

  accepted_parts :
      (m : Nonces) (k : Check) (t : PairTicketClaims)
      → k.consume ≡ true
      → (verify m k).0 ≡ ok tt
      → read_ticket c k.ticket k.pair_token ≡ ok t
      → t.exp ≤ u64_max
      → (check_claims k.now k.system_id t ≡ ok tt) × IsSpent t.nonce t.exp (verify m k).1
  unfolding verify_pairing_ticket settle
  accepted_parts m k t consumed accepted read bound =
      let (u, checked, used) = settle_accepted k.now m k.consume _ accepted in
      let parts = check_ticket_parts k.now k.ticket k.system_id k.pair_token u checked in
      let same : u ≡ t = cc (parts.0) in
      (
        rw same at parts.1,
        rw (checked, settle, same, consumed)
            (use_nonce_accepted k.now t m bound (rw (same, consumed) at used)),
      )

  refused_again :
      (m : Nonces) (now later : ℕ) (ticket system_id pair_token : String) (t : PairTicketClaims)
      (again : Bool)
      → read_ticket c ticket pair_token ≡ ok t
      → now ≤ later
      → check_claims now system_id t ≡ ok tt
      → (later < t.exp → IsSpent t.nonce t.exp m)
      → (verify_pairing_ticket c later ticket system_id pair_token m again).0
        ≡ err (if leb t.exp later then expired else replay)
  unfolding verify_pairing_ticket settle
  refused_again m now later ticket system_id pair_token t again read h k spent =
      let checked = check_ticket_again now later ticket system_id pair_token t read h k in
      elim (Bool-cases (leb t.exp later)) [
        | inl over ↦ rw (checked, over, settle)
        | inr live ↦
            let early : later < t.exp = ground arith in
            rw (checked, live, settle) (use_nonce_replayed later t m again early (spent early))
      ]

  -- A ticket that was accepted and consumed is never accepted again in its room: at any later
  -- second, whatever other tickets were checked or consumed in between, it is refused as expired
  -- from its expiry on, and as replayed before.
  pub one_use :
      (json : ReadsU64 c) (m : Nonces) (first : Check) (t : PairTicketClaims) (between : List Check)
      (later : ℕ) (again : Bool)
      → first.consume ≡ true
      → (verify m first).0 ≡ ok tt
      → read_ticket c first.ticket first.pair_token ≡ ok t
      → first.now ≤ later
      → All (λ k. k.now ≤ later) between
      → (verify
          (run_checks (verify m first).1 between)
          (record first { now = later; consume = again })).0
        ≡ err (if leb t.exp later then expired else replay)
  one_use json m first t between later again consumed accepted read ordered before =
      let bound = read_ticket_bound json first.ticket first.pair_token t read in
      let (checked, spent) = accepted_parts m first t consumed accepted read bound in
      refused_again _ first.now later first.ticket first.system_id first.pair_token t again read
        ordered checked
        (λ early. run_checks-IsSpent _ between t.nonce t.exp later early before spent)
