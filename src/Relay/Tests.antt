-- ===== src/Relay/Tests.antt =====
-- The theorems at concrete inputs.
use your_connector.Common.{
  ℕ, ◌<◌, ◌≡◌, refl, true, false, none, some, List, [], ◌∷◌, String, ok, err, is_ok, arith,
  saturating_add, string_eq, Option, ltb, if◌then◌else◌,
}
use your_connector.Common.HashMap
use your_connector.Common.Text.{trim, take_chars, split, part, as_bytes}
use your_connector.Relay.Api.{replay, expired, WsQuery, PairBootstrapRequest, PairBootstrapData}
use your_connector.Relay.State.{AppState, SystemRoom, has_online_sidecar, consume_auth_nonce}
use your_connector.Relay.Nonces.{prune, seen}
use your_connector.Relay.Toy.{
  toy, toy_ticket, toy_access, toy-IsBase64, toy-IsHmac, toy-TicketJson, toy-ReadsU64,
}
use your_connector.Relay.Auth.Pop.{verify_ts_window}
use your_connector.Relay.Auth.Replay.{Use, consume, run_uses, replay_refused, replay_accepted}
use your_connector.Relay.External.{bytes_equal}
use your_connector.Relay.Auth.Handlers.{Readings}
use your_connector.Relay.Auth.Token.{
  verify_access_token, read_access_token, issue_refresh_session, parse_refresh_token,
}
use your_connector.Relay.Auth.Token.RoundTrip.{parse-issue}
use your_connector.Relay.Auth.Token.Sound.{verify_access_token_sound}
use your_connector.Relay.Ws.Auth.{authorize_connection, sidecar_clients}
use your_connector.Relay.Ws.Takeover.{takeover_refused}
use your_connector.Relay.Pairing.Bootstrap.{
  normalize_ttl_sec, normalize_host_name, build_pair_bootstrap_data,
}
use your_connector.Relay.Pairing.Bootstrap.Lifetime.{lifetime}
use your_connector.Relay.Pairing.Handlers.{issue_pair_bootstrap}
use your_connector.Relay.Pairing.Handlers.Lifetime.{issued_lifetime}
use your_connector.Relay.Pairing.Ticket.{
  generate_pairing_ticket, verify_pairing_ticket, read_ticket, check_ticket, check_claims, settle,
  use_nonce,
}
use your_connector.Relay.Pairing.Ticket.Spent.{Check, verify, run_checks, one_use}
use your_connector.Relay.Pairing.Ticket.RoundTrip.{verify-generate}

abbrev check : Check
check = record {
  now = 150;
  ticket = "pct_v1.b.b";
  system_id = "mac";
  pair_token = "secret";
  consume = true;
}

check_reads : read_ticket toy check.ticket check.pair_token ≡ ok toy_ticket
unfolding read_ticket toy string_eq split
check_reads = refl

check_accepted : (verify toy [] check).0 ≡ ok tt
unfolding verify_pairing_ticket toy settle check_ticket read_ticket string_eq split check_claims
    trim saturating_add use_nonce prune seen HashMap.insert HashMap.get HashMap.retain
check_accepted = refl

one_use_example :
    (verify toy
      (run_checks toy (verify toy [] check).1 [])
      (record check { now = 200; consume = false })).0
    ≡ err replay
one_use_example =
    one_use toy toy-ReadsU64 [] check toy_ticket [] 200 false refl check_accepted check_reads
      (omega arith) tt

verify-generate_example :
    (ticket : String) × (generate_pairing_ticket toy 100 "n1" "mac" "secret" 300 ≡ some ticket)
    × ((verify_pairing_ticket toy 150 ticket "mac" "secret" [] true).0 ≡ ok tt)
unfolding saturating_add trim HashMap.get
verify-generate_example =
    verify-generate toy toy-IsBase64 toy-IsHmac 100 150 "n1" "mac" "secret" 300 [] true
      toy-TicketJson (omega arith) (omega arith) refl refl

abbrev empty_state : AppState
empty_state = record {
  systems = HashMap.empty;
  auth_store = record { version = 1; signing_key = "key"; systems = HashMap.empty };
  auth_nonces = HashMap.empty;
}

abbrev first_use : Use
first_use = record { now = 1000; scope = "refresh"; nonce = "n"; ts = 1060 }

first_use_accepted : is_ok (consume empty_state first_use).0 ≡ true
unfolding consume_auth_nonce trim string_eq saturating_add prune seen HashMap.get HashMap.retain
first_use_accepted = refl

replay_refused_example :
    is_ok
      (consume
        (run_uses (consume empty_state first_use).1 (first_use ∷ []))
        (record first_use { now = 1119 })).0
    ≡ false
unfolding saturating_add
replay_refused_example =
    replay_refused empty_state first_use (first_use ∷ []) (record first_use { now = 1119 })
      first_use_accepted refl (omega arith) (omega arith, tt)

replay_accepted_example :
    (verify_ts_window 1150 1060 "E" "m" ≡ ok tt)
    × (is_ok (consume (consume empty_state first_use).1 (record first_use { now = 1150 })).0 ≡ true)
replay_accepted_example =
    replay_accepted empty_state first_use 1150 "E" "m" first_use_accepted (omega arith)
      (omega arith) (omega arith)

token_accepted : verify_access_token toy 200 "yat_v1.b.b" "key" "mac" "phone" "k" ≡ ok toy_access
unfolding verify_access_token read_access_token toy string_eq split bytes_equal
token_accepted = refl

verify_access_token_sound_example :
    (read_access_token toy "yat_v1.b.b" "key" ≡ ok toy_access)
    × (toy_access.sid ≡ "mac")
    × (toy_access.did ≡ "phone")
    × (toy_access.kid ≡ "k")
    × (200 < toy_access.exp)
    × ((tag : List ℕ) × (toy.hmac_sha256
            (as_bytes "key")
            (as_bytes (part 1 (split b'.' "yat_v1.b.b")))
          ≡ some tag)
        × (toy.b64_decode (part 2 (split b'.' "yat_v1.b.b")) ≡ some tag))
verify_access_token_sound_example =
    verify_access_token_sound toy 200 "yat_v1.b.b" "key" "mac" "phone" "k" toy_access token_accepted

abbrev held_room : SystemRoom
held_room = record {
  pair_token = "secret";
  ticket_nonces = HashMap.empty;
  app_nonces = HashMap.empty;
  clients = ("c1", record { client_type = "sidecar"; drop_count = 0 }) ∷ [];
}

abbrev held_state : AppState
held_state = record empty_state { systems = ("mac", held_room) ∷ [] }

abbrev no_link : List (String × String) → String
no_link pairs = "yc://pair"

abbrev wish : PairBootstrapRequest
wish = record {
  system_id = " mac";
  pair_token = "secret";
  host_name = none;
  relay_ws_url = some "ws://relay";
  include_code = none;
  ttl_sec = none;
}

abbrev handed_out : Option PairBootstrapData
handed_out =
    build_pair_bootstrap_data toy no_link 100 "n1" "ws://relay" "mac" "secret" "mac" true 300

wish_granted : issue_pair_bootstrap toy no_link "" 100 "n1" held_state wish ≡ ok handed_out
unfolding issue_pair_bootstrap trim HashMap.get string_eq has_online_sidecar normalize_host_name
    normalize_ttl_sec take_chars
wish_granted = refl

issued_lifetime_example :
    (made : PairBootstrapData) × (handed_out ≡ some made)
    × ((verify_pairing_ticket toy 400 made.pair_ticket (trim " mac") (trim "secret") [] true).0
        ≡ (if ltb 400 (saturating_add 100 (lifetime none)) then ok tt else err expired))
unfolding trim normalize_ttl_sec saturating_add HashMap.get
issued_lifetime_example =
    issued_lifetime toy no_link toy-IsBase64 toy-IsHmac "" 100 400 "n1" held_state wish handed_out
      [] true toy-TicketJson wish_granted (omega arith) refl refl

abbrev intruder : WsQuery
intruder = record {
  system_id = "mac";
  client_type = "sidecar";
  device_id = "other";
  pair_token = "guess";
  pair_ticket = none;
  host_name = none;
  access_token = none;
  key_id = none;
  ts = none;
  nonce = none;
  sig = none;
}

abbrev readings : Readings
readings = record {
  window_now = 200;
  nonce_now = 200;
  check_now = 200;
  issue_now = 200;
  session_now = 200;
  now_text = "t1";
  jti = "j";
  session_uuid = "u";
  credential_uuid = "v";
  secret = "x";
  written = ok tt;
}

takeover_refused_example :
    (is_ok (authorize_connection toy readings intruder held_state).0 ≡ false)
    × ((authorize_connection toy readings intruder held_state).1 ≡ held_state)
unfolding HashMap.get string_eq sidecar_clients trim
takeover_refused_example =
    takeover_refused toy readings intruder held_state held_room refl refl (omega arith) refl

parse-issue_example :
    let (token, session) = issue_refresh_session toy 200 "t1" "u" "x" "mac" "phone" "k" "c" in
    parse_refresh_token token ≡ ok (session.session_id, "x")
parse-issue_example = parse-issue toy 200 "t1" "u" "x" "mac" "phone" "k" "c" refl refl refl refl
