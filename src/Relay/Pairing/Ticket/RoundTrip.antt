-- ===== src/Relay/Pairing/Ticket/RoundTrip.antt =====
-- A ticket that the relay issues is one that it accepts.
use your_connector.Common.{
  ℕ, ◌≤◌, ◌<◌, ◌≡◌, refl, Bool, false, none, some, List, [], ◌∷◌, String, ok, arith, ==_refl,
  saturating_add, string_eq,
}
use your_connector.Common.HashMap
use your_connector.Common.Text.{
  as_bytes, split, trim, is_empty, is_empty_of_ne, join_three-not_empty, join_three,
  split-join_three,
}
use your_connector.Relay.Api.{PairTicketClaims}
use your_connector.Relay.External.{Crypto, IsBase64, IsHmac, TicketJson, bytes_equal_refl}
use your_connector.Relay.Nonces.{Nonces, seen_fresh, seen-prune}
use your_connector.Relay.Pairing.Ticket.{
  generate_pairing_ticket, read_ticket, check_claims, check_ticket, use_nonce, settle,
  verify_pairing_ticket,
}

-- what `generate_pairing_ticket` writes into a ticket
abbrev pub issued_claims : ℕ → String → String → ℕ → PairTicketClaims
issued_claims now nonce system_id ttl_sec = record {
  sid = system_id;
  iat = now;
  exp = saturating_add now ttl_sec;
  nonce = nonce;
}

pub issued_claims_pass :
    (now later : ℕ) (nonce system_id : String) (ttl_sec : ℕ)
    → now ≤ later
    → later < saturating_add now ttl_sec
    → is_empty (trim nonce) ≡ false
    → check_claims later system_id (issued_claims now nonce system_id ttl_sec) ≡ ok tt
unfolding check_claims
issued_claims_pass now later nonce system_id ttl_sec h early named =
    rw (==_refl system_id, named) (unfold saturating_add in ground arith)

-- A well-formed text with a matching tag is read as its claims.
read_signed :
    (c : Crypto) (ticket pair_token payload sig : String) (raw tag : List ℕ) (t : PairTicketClaims)
    → is_empty ticket ≡ false
    → split b'.' ticket ≡ "pct_v1" ∷ payload ∷ sig ∷ []
    → is_empty payload ≡ false
    → is_empty sig ≡ false
    → c.b64_decode sig ≡ some tag
    → c.hmac_sha256 (as_bytes pair_token) (as_bytes payload) ≡ some tag
    → c.b64_decode payload ≡ some raw
    → c.ticket_from_json raw ≡ some t
    → read_ticket c ticket pair_token ≡ ok t
unfolding read_ticket
read_signed c ticket pair_token payload sig raw tag t filled parts p s d m e j =
    rw (filled, parts, ==_refl {A = String} "pct_v1", p, s, d, m, bytes_equal_refl tag, e, j)

generate_signed :
    (c : Crypto) (now : ℕ) (nonce system_id pair_token : String) (ttl_sec : ℕ) (payload : String)
    (tag : List ℕ)
    → c.b64_encode (as_bytes (c.ticket_to_json (issued_claims now nonce system_id ttl_sec)))
      ≡ payload
    → c.hmac_sha256 (as_bytes pair_token) (as_bytes payload) ≡ some tag
    → generate_pairing_ticket c now nonce system_id pair_token ttl_sec
      ≡ some (join_three "pct_v1" payload (c.b64_encode tag))
unfolding generate_pairing_ticket
generate_signed c now nonce system_id pair_token ttl_sec payload tag e m = ground (arith, e, m)

module _ (c : Crypto) (b64 : IsBase64 c) (hmac : IsHmac c) where
  pub read-generate :
      (now : ℕ) (nonce system_id pair_token : String) (ttl_sec : ℕ)
      → TicketJson c (issued_claims now nonce system_id ttl_sec)
      → (ticket : String) × (generate_pairing_ticket c now nonce system_id pair_token ttl_sec
          ≡ some ticket)
        × (read_ticket c ticket pair_token ≡ ok (issued_claims now nonce system_id ttl_sec))
  read-generate now nonce system_id pair_token ttl_sec json =
      let t = issued_claims now nonce system_id ttl_sec in
      let raw = as_bytes (c.ticket_to_json t) in
      let payload = c.b64_encode raw in
      let (tag, tagged, long) = hmac (as_bytes pair_token) (as_bytes payload) in
      let sig = c.b64_encode tag in
      let ticket = join_three "pct_v1" payload sig in
      (
        ticket,
        generate_signed c now nonce system_id pair_token ttl_sec payload tag refl tagged,
        read_signed c ticket pair_token payload sig raw tag t
            (is_empty_of_ne ticket (join_three-not_empty "p" "ct_v1" payload sig))
            (split-join_three "pct_v1" payload sig refl (b64.no_dot raw) (b64.no_dot tag))
            (b64.not_empty raw json.written) (b64.not_empty tag long) (b64.decode-encode tag) tagged
            (b64.decode-encode raw) json.read-write,
      )

  -- A ticket that the relay issues is accepted for its system until it expires, provided that its
  -- nonce is not blank and is not among the used ones.
  pub verify-generate :
      (now later : ℕ) (nonce system_id pair_token : String) (ttl_sec : ℕ) (m : Nonces)
      (consume : Bool)
      → TicketJson c (issued_claims now nonce system_id ttl_sec)
      → now ≤ later
      → later < saturating_add now ttl_sec
      → is_empty (trim nonce) ≡ false
      → HashMap.get nonce m ≡ none
      → (ticket : String) × (generate_pairing_ticket c now nonce system_id pair_token ttl_sec
          ≡ some ticket)
        × ((verify_pairing_ticket c later ticket system_id pair_token m consume).0 ≡ ok tt)
  unfolding verify_pairing_ticket settle use_nonce check_ticket
  verify-generate now later nonce system_id pair_token ttl_sec m consume json h early named fresh =
      let (ticket, made, read) = read-generate now nonce system_id pair_token ttl_sec json in
      (
        ticket,
        made,
        rw (
          read,
          issued_claims_pass now later nonce system_id ttl_sec h early named,
          seen-prune nonce 30 later m (seen_fresh nonce later m fresh),
        ),
      )
