-- ===== src/Relay/Pairing/Bootstrap/Lifetime.antt =====
-- How long a ticket of a pairing link is good for.
use your_connector.Common.{
  ℕ, ◌≤◌, ◌<◌, ◌≡◌, refl, Bool, false, Option, none, some, List, String, ok, err, arith, ==_refl,
  ltb, min, max, saturating_add, string_eq, if◌then◌else◌, Bool-cases, inl, inr,
}
use your_connector.Common.HashMap
use your_connector.Common.Text.{trim, is_empty}
use your_connector.Relay.Api.{PairTicketError, PairBootstrapData}
use your_connector.Relay.External.{Crypto, IsBase64, IsHmac, TicketJson}
use your_connector.Relay.Nonces.{Nonces, seen_fresh, seen-prune}
use your_connector.Relay.Pairing.Ticket.{
  generate_pairing_ticket, read_ticket, check_claims, check_ticket, settle, use_nonce,
  verify_pairing_ticket,
}
use your_connector.Relay.Pairing.Ticket.RoundTrip.{issued_claims, issued_claims_pass, read-generate}
use your_connector.Relay.Pairing.Bootstrap.{normalize_ttl_sec, build_pair_bootstrap_data}

-- The seconds that a ticket lives: those asked for, but no less than half a minute and no more than an
-- hour; five minutes if none are asked for.
abbrev pub lifetime : Option ℕ → ℕ
lifetime none = 300
lifetime (some asked) = max 30 (min asked 3600)

normalize-lifetime : (asked : Option ℕ) → normalize_ttl_sec asked ≡ lifetime asked
unfolding normalize_ttl_sec
normalize-lifetime none = refl
normalize-lifetime (some m) = ground arith

issued_claims_expire :
    (now later : ℕ) (nonce system_id : String) (ttl_sec : ℕ)
    → ltb later (saturating_add now ttl_sec) ≡ false
    → is_empty (trim nonce) ≡ false
    → check_claims later system_id (issued_claims now nonce system_id ttl_sec)
      ≡ err PairTicketError.expired
unfolding check_claims
issued_claims_expire now later nonce system_id ttl_sec late named =
    rw (==_refl system_id, named) (ground (arith, late))

-- what a ticket that reads as issued is answered
verify_issued :
    (c : Crypto) (now later : ℕ) (ticket nonce system_id pair_token : String) (ttl_sec : ℕ)
    (m : Nonces) (consume : Bool)
    → read_ticket c ticket pair_token ≡ ok (issued_claims now nonce system_id ttl_sec)
    → now ≤ later
    → is_empty (trim nonce) ≡ false
    → HashMap.get nonce m ≡ none
    → (verify_pairing_ticket c later ticket system_id pair_token m consume).0
      ≡ (if ltb later (saturating_add now ttl_sec) then ok tt else err PairTicketError.expired)
unfolding verify_pairing_ticket settle use_nonce check_ticket
verify_issued c now later ticket nonce system_id pair_token ttl_sec m consume read h named fresh =
    elim (Bool-cases (ltb later (saturating_add now ttl_sec))) [
      | inl early ↦
          let before : later < saturating_add now ttl_sec = ground (arith, early) in
          rw (
            early,
            read,
            issued_claims_pass now later nonce system_id ttl_sec h before named,
            seen-prune nonce 30 later m (seen_fresh nonce later m fresh),
          )
      | inr late ↦
          rw (late, read, issued_claims_expire now later nonce system_id ttl_sec late named)
    ]

bootstrap_ticket :
    (c : Crypto) (link : List (String × String) → String) (now : ℕ)
    (nonce relay_ws_url system_id pair_token host_name : String) (include_code : Bool) (ttl_sec : ℕ)
    (ticket : String)
    → generate_pairing_ticket c now nonce system_id pair_token ttl_sec ≡ some ticket
    → (made : PairBootstrapData) × (build_pair_bootstrap_data c link now nonce relay_ws_url
          system_id pair_token host_name include_code ttl_sec
        ≡ some made)
      × (made.pair_ticket ≡ ticket)
unfolding build_pair_bootstrap_data
bootstrap_ticket c link now nonce relay_ws_url system_id pair_token host_name include_code ttl_sec
      ticket signed =
    rw (build_pair_bootstrap_data, signed) (_, refl, refl)

pub build-lifetime :
    (c : Crypto) (link : List (String × String) → String) (b64 : IsBase64 c) (hmac : IsHmac c)
    (now later : ℕ) (nonce relay_ws_url system_id pair_token host_name : String)
    (include_code : Bool) (asked : Option ℕ) (m : Nonces) (consume : Bool)
    → TicketJson c (issued_claims now nonce system_id (normalize_ttl_sec asked))
    → now ≤ later
    → is_empty (trim nonce) ≡ false
    → HashMap.get nonce m ≡ none
    → (made : PairBootstrapData) × (build_pair_bootstrap_data c link now nonce relay_ws_url
          system_id pair_token host_name include_code
          (normalize_ttl_sec asked)
        ≡ some made)
      × ((verify_pairing_ticket c later made.pair_ticket system_id pair_token m consume).0 ≡ (
          if ltb later (saturating_add now (lifetime asked))
          then ok tt
          else err PairTicketError.expired))
build-lifetime c link b64 hmac now later nonce relay_ws_url system_id pair_token host_name
      include_code asked m consume json h named fresh =
    let (ticket, signed, read) =
      read-generate c b64 hmac now nonce system_id pair_token (normalize_ttl_sec asked) json in
    let (made, built, holds) =
      bootstrap_ticket c link now nonce relay_ws_url system_id pair_token host_name include_code
        (normalize_ttl_sec asked) ticket signed in
    let answered =
      verify_issued c now later ticket nonce system_id pair_token (normalize_ttl_sec asked) m
        consume read h named fresh in
    (made, built, rw (holds, ← normalize-lifetime asked) answered)
