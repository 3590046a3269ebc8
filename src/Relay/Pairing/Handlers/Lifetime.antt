-- ===== src/Relay/Pairing/Handlers/Lifetime.antt =====
-- How long the ticket is good for that `issue_pair_bootstrap` hands out.
use your_connector.Common.{
  ℕ, ◌≤◌, ◌≡◌, Bool, false, Option, none, some, List, String, ok, err, arith, ltb, saturating_add,
  string_eq, if◌then◌else◌,
}
use your_connector.Common.HashMap
use your_connector.Common.Text.{trim, is_empty}
use your_connector.Relay.Api.{PairTicketError, PairBootstrapRequest, PairBootstrapData}
use your_connector.Relay.External.{Crypto, IsBase64, IsHmac, TicketJson}
use your_connector.Relay.Nonces.{Nonces}
use your_connector.Relay.State.{AppState}
use your_connector.Relay.Pairing.Bootstrap.{
  normalize_host_name, normalize_ttl_sec, build_pair_bootstrap_data, or_empty,
}
use your_connector.Relay.Pairing.Bootstrap.Lifetime.{lifetime, build-lifetime}
use your_connector.Relay.Pairing.Handlers.Bootstrap.{or_true, issue_pair_bootstrap}
use your_connector.Relay.Pairing.Ticket.{verify_pairing_ticket}
use your_connector.Relay.Pairing.Ticket.RoundTrip.{issued_claims}

module _ (c : Crypto) (link : List (String × String) → String) where
  issue-build :
      (public_ws_url : String) (now : ℕ) (nonce : String) (s : AppState)
      (req : PairBootstrapRequest) (answer : Option PairBootstrapData)
      → issue_pair_bootstrap c link public_ws_url now nonce s req ≡ ok answer
      → (url host : String) × (include_code : Bool) × (build_pair_bootstrap_data c link now nonce
            url
            (trim req.system_id)
            (trim req.pair_token)
            host
            include_code
            (normalize_ttl_sec req.ttl_sec)
          ≡ answer)
  unfolding issue_pair_bootstrap
  issue-build public_ws_url now nonce s req answer issued = (
    (if is_empty (trim (or_empty req.relay_ws_url))
        then public_ws_url
        else trim (or_empty req.relay_ws_url)),
    normalize_host_name req.host_name (trim req.system_id),
    or_true req.include_code,
    ground (arith, issued),
  )

  -- If the request for a pairing link is granted, the link holds a ticket. Its system accepts it for
  -- the seconds asked for, but for at least 30 and at most 3600, and for 300 if none are asked for;
  -- from then on it is refused as expired. The clock does not run backwards, its sum with those
  -- seconds ends at the largest `u64`, and the nonce is not blank and not among the used ones.
  pub issued_lifetime :
      (b64 : IsBase64 c) (hmac : IsHmac c) (public_ws_url : String) (now later : ℕ) (nonce : String)
      (s : AppState) (req : PairBootstrapRequest) (answer : Option PairBootstrapData) (m : Nonces)
      (consume : Bool)
      → TicketJson c (issued_claims now nonce (trim req.system_id) (normalize_ttl_sec req.ttl_sec))
      → issue_pair_bootstrap c link public_ws_url now nonce s req ≡ ok answer
      → now ≤ later
      → is_empty (trim nonce) ≡ false
      → HashMap.get nonce m ≡ none
      → (made : PairBootstrapData) × (answer ≡ some made)
        × ((verify_pairing_ticket c later made.pair_ticket
              (trim req.system_id)
              (trim req.pair_token)
              m
              consume).0
            ≡ (if ltb later (saturating_add now (lifetime req.ttl_sec))
                then ok tt
                else err PairTicketError.expired))
  issued_lifetime b64 hmac public_ws_url now later nonce s req answer m consume json issued h named
        fresh =
      let (url, host, include_code, built) =
        issue-build public_ws_url now nonce s req answer issued in
      let (made, is_made, answered) =
        build-lifetime c link b64 hmac now later nonce url (trim req.system_id)
          (trim req.pair_token) host include_code req.ttl_sec m consume json h named fresh in
      (made, cc (built, is_made), answered)
