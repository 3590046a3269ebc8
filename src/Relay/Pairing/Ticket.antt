-- ===== src/Relay/Pairing/Ticket.antt =====
-- services/relay/src/pairing/ticket.rs: short-lived pairing tickets. Time and the random nonce are
-- arguments; the map of used nonces comes back beside the result.
pub mod Spent
pub mod RoundTrip
use your_connector.Common.{
  ℕ, ◌+◌, ◌≡◌, Bool, true, false, not, ◌||◌, Option, none, some, List, [], ◌∷◌, String, Result, ok,
  err, ◌>>=◌, ◌>>◌, refuse, or_fail, ◌==◌, ltb, leb, if◌then◌else◌, length, saturating_add,
  string_eq,
}
use your_connector.Common.Text.{as_bytes, split, part, join_three, trim, is_empty}
use your_connector.Common.HashMap
use your_connector.Relay.Api.{
  ApiError, api_error, bad_request, unauthorized, PairTicketClaims, PairTicketError,
}
use your_connector.Relay.External.{Crypto, bytes_equal}
use your_connector.Relay.Nonces.{Nonces, prune, seen}

-- the checks of the claims against the system and the clock
unfoldable pub check_claims : ℕ → String → PairTicketClaims → Result PairTicketError (Unit {0})
check_claims now expected_system_id t = do
  refuse (not (t.sid == expected_system_id)) PairTicketError.system_mismatch
  refuse (is_empty (trim t.nonce)) PairTicketError.empty_nonce
  refuse (leb t.exp now) PairTicketError.expired
  refuse (ltb (saturating_add now 30) t.iat) PairTicketError.iat_invalid

-- the checks of the nonce, and its insertion
unfoldable pub use_nonce :
    ℕ → PairTicketClaims → Nonces → Bool → Result PairTicketError (Unit {0}) × Nonces
use_nonce now t used_nonces consume =
    let pruned = prune 30 now used_nonces in
    if seen now t.nonce pruned
    then (err PairTicketError.replay, pruned)
    else (ok tt, if consume then HashMap.insert t.nonce t.exp pruned else pruned)

unfoldable pub settle :
    ℕ
    → Nonces
    → Bool
    → Result PairTicketError PairTicketClaims
    → Result PairTicketError (Unit {0}) × Nonces
settle now used_nonces consume (err e) = (err e, used_nonces)
settle now used_nonces consume (ok t) = use_nonce now t used_nonces consume

module _ (c : Crypto) where
  -- none is the panic of `expect`
  unfoldable pub generate_pairing_ticket : ℕ → String → String → String → ℕ → Option String
  generate_pairing_ticket now nonce system_id pair_token ttl_sec =
      let payload_raw =
        c.ticket_to_json (record {
          sid = system_id;
          iat = now;
          exp = saturating_add now ttl_sec;
          nonce = nonce;
        }) in
      let payload_b64 = c.b64_encode (as_bytes payload_raw) in
      elim (c.hmac_sha256 (as_bytes pair_token) (as_bytes payload_b64)) [
        | none ↦ none
        | some sig ↦ some (join_three "pct_v1" payload_b64 (c.b64_encode sig))
      ]

  -- the part of `verify_pairing_ticket` that reads the ticket alone: format, signature, claims
  unfoldable pub read_ticket : String → String → Result PairTicketError PairTicketClaims
  unfolding bytes_equal
  read_ticket ticket pair_token = do
    refuse (is_empty ticket) PairTicketError.empty
    let parts = split b'.' ticket
    let payload_b64 = part 1 parts
    let sig_b64 = part 2 parts
    refuse
        (not (part 0 parts == "pct_v1")
          || is_empty payload_b64
          || is_empty sig_b64
          || not (leb (length parts) 3))
        PairTicketError.format
    sig ← or_fail (c.b64_decode sig_b64) PairTicketError.signature_format
    tag ←
        or_fail (c.hmac_sha256 (as_bytes pair_token) (as_bytes payload_b64))
          PairTicketError.signature_verify
    refuse (not (bytes_equal tag sig)) PairTicketError.signature_verify
    payload_raw ← or_fail (c.b64_decode payload_b64) PairTicketError.payload
    or_fail (c.ticket_from_json payload_raw) PairTicketError.claims

  -- all checks that leave the nonces alone
  unfoldable pub check_ticket :
      ℕ → String → String → String → Result PairTicketError PairTicketClaims
  check_ticket now ticket expected_system_id pair_token = do
    t ← read_ticket ticket pair_token
    check_claims now expected_system_id t
    ok t

  unfoldable pub verify_pairing_ticket :
      ℕ → String → String → String → Nonces → Bool → Result PairTicketError (Unit {0}) × Nonces
  verify_pairing_ticket now ticket expected_system_id pair_token used_nonces consume =
      settle now used_nonces consume (check_ticket now ticket expected_system_id pair_token)

unfoldable pub pair_ticket_error_to_api : PairTicketError → ApiError
pair_ticket_error_to_api PairTicketError.empty =
    api_error bad_request "MISSING_CREDENTIALS" "缺少配对票据" "请重新扫码"
pair_ticket_error_to_api PairTicketError.expired =
    api_error unauthorized "PAIR_TICKET_EXPIRED" "配对票据已过期" "请重新扫码获取最新二维码"
pair_ticket_error_to_api PairTicketError.replay =
    api_error unauthorized "PAIR_TICKET_REPLAYED" "配对票据已使用" "请重新扫码获取最新二维码"
pair_ticket_error_to_api _ = api_error unauthorized "PAIR_TICKET_INVALID" "配对票据无效" "请重新扫码获取最新配对信息"
