-- ===== src/Relay/RequestTests.antt =====
-- The theorems on sequences of requests, at concrete inputs.
use your_connector.Common.{
  ◌≡◌, refl, false, none, some, [], ◌∷◌, String, ok, is_ok, saturating_add, string_eq,
}
use your_connector.Common.HashMap
use your_connector.Common.Text.{trim, split, parse_u64, as_bytes}
use your_connector.Relay.Api.{
  DeviceCredential, RefreshSession, SystemAuthState, AuthRefreshRequest, AuthRefreshData,
  AuthRevokeDeviceRequest, AuthDevicesQuery, WsQuery,
}
use your_connector.Relay.External.{bytes_equal}
use your_connector.Relay.Nonces.{prune, seen}
use your_connector.Relay.State.{AppState, consume_auth_nonce}
use your_connector.Relay.Toy.{toy, toy_sig, toy_key}
use your_connector.Relay.Auth.Pop.{parse_ts, verify_ts_window}
use your_connector.Relay.Auth.TokenCrypto.{sha256_hex, verify_pop_signature, hmac_b64url}
use your_connector.Relay.Auth.Token.{
  parse_refresh_token, issue_access_token, issue_refresh_session, verify_access_token,
  read_access_token,
}
use your_connector.Relay.Auth.Handlers.{
  Readings, refresh_device_credential, revoke_device, list_devices, on_system, rotate_session,
  verify_access_http, revoke_target,
}
use your_connector.Relay.Auth.Handlers.Session.{check_session}
use your_connector.Relay.Ws.Auth.{authorize_app_with_access}
use your_connector.Relay.Ops.{run}
use your_connector.Relay.Ops.SingleUse.{refresh_once}
use your_connector.Relay.Ops.Revocation.{revoked_device_refused}

abbrev device : String → DeviceCredential
device id = record {
  device_id = id;
  device_name = id;
  key_id = "k";
  public_key = toy_key;
  status = "ACTIVE";
  created_at = "t0";
  last_seen_at = "t0";
  revoked_at = none;
}

abbrev session : RefreshSession
session = record {
  session_id = "rs_old";
  system_id = "mac";
  device_id = "phone";
  key_id = "k";
  credential_id = "c";
  refresh_secret_hash = "";
  expires_at = 5000;
  created_at = "t0";
  revoked_at = none;
  rotated_from = none;
}

abbrev mac : SystemAuthState
mac = record {
  pair_token_hash = none;
  pair_token_updated_at = none;
  devices = ("phone", device "phone") ∷ ("tablet", device "tablet") ∷ [];
  refresh_sessions = ("rs_old", session) ∷ [];
}

abbrev paired_state : AppState
paired_state = record {
  systems = HashMap.empty;
  auth_store = record { version = 1; signing_key = "key"; systems = ("mac", mac) ∷ [] };
  auth_nonces = HashMap.empty;
}

abbrev readings : Readings
readings = record {
  window_now = 200;
  nonce_now = 200;
  check_now = 200;
  issue_now = 200;
  session_now = 200;
  now_text = "t1";
  jti = "j";
  session_uuid = "old2";
  credential_uuid = "c2";
  secret = "x";
  written = ok tt;
}

abbrev refresh : AuthRefreshRequest
refresh = record {
  system_id = "mac";
  device_id = "phone";
  refresh_token = "yrt_v1.rs_old.s";
  key_id = "k";
  ts = "200";
  nonce = "n1";
  sig = toy_sig;
}

abbrev refreshed : AuthRefreshData
refreshed = record {
  access_token = "yat_v1..b";
  refresh_token = "yrt_v1.rs_old2.x";
  key_id = "k";
  credential_id = "c";
  access_expires_in_sec = 600;
  refresh_expires_in_sec = 2592000;
}

refresh_returns : (refresh_device_credential toy readings refresh paired_state).0 ≡ ok refreshed
unfolding refresh_device_credential toy trim parse_ts parse_u64 verify_ts_window saturating_add
    consume_auth_nonce seen HashMap.get prune HashMap.retain parse_refresh_token string_eq split
    on_system rotate_session check_session sha256_hex HashMap.insert verify_pop_signature as_bytes
    issue_access_token issue_refresh_session hmac_b64url
refresh_returns = refl

refresh_once_example :
    is_ok
      (refresh_device_credential toy readings
        (record refresh { nonce = "n2" })
        (run toy (refresh_device_credential toy readings refresh paired_state).1 [])).0
    ≡ false
unfolding trim parse_refresh_token split string_eq
refresh_once_example =
    refresh_once toy readings readings refresh (record refresh { nonce = "n2" }) "rs_old" "s"
      paired_state refreshed [] refl refresh_returns (λ e. cc e) tt refl refl

abbrev revoke : AuthRevokeDeviceRequest
revoke = record {
  system_id = "mac";
  device_id = "phone";
  target_device_id = "tablet";
  access_token = "yat_v1.b.b";
  key_id = "k";
  ts = "200";
  nonce = "n1";
  sig = toy_sig;
}

revoke_returns : (revoke_device toy readings revoke paired_state).0 ≡ ok "tablet"
unfolding revoke_device toy trim parse_ts parse_u64 verify_ts_window saturating_add
    consume_auth_nonce seen HashMap.get prune HashMap.retain verify_access_http verify_access_token
    read_access_token string_eq split verify_pop_signature on_system revoke_target HashMap.insert
    HashMap.map_values bytes_equal
revoke_returns = refl

abbrev list : AuthDevicesQuery
list = record {
  system_id = "mac";
  device_id = "tablet";
  access_token = "yat_v1.b.b";
  key_id = "k";
  ts = "200";
  nonce = "n3";
  sig = toy_sig;
}

abbrev connect : WsQuery
connect = record {
  system_id = "mac";
  client_type = "app";
  device_id = "tablet";
  pair_token = "secret";
  pair_ticket = none;
  host_name = none;
  access_token = some "yat_v1.b.b";
  key_id = some "k";
  ts = some "200";
  nonce = some "n4";
  sig = some toy_sig;
}

abbrev tablet_refresh : AuthRefreshRequest
tablet_refresh = record refresh { system_id = "mac"; device_id = "tablet" }

abbrev tablet_revoke : AuthRevokeDeviceRequest
tablet_revoke = record revoke { system_id = "mac"; device_id = "tablet" }

abbrev after_revocation : AppState
after_revocation = run toy (revoke_device toy readings revoke paired_state).1 []

revoked_device_refused_example :
    (is_ok (refresh_device_credential toy readings tablet_refresh after_revocation).0 ≡ false)
    × (is_ok (revoke_device toy readings tablet_revoke after_revocation).0 ≡ false)
    × (is_ok (list_devices toy readings list after_revocation).0 ≡ false)
    × (is_ok (authorize_app_with_access toy readings connect after_revocation).0 ≡ false)
unfolding trim
revoked_device_refused_example =
    revoked_device_refused toy readings readings revoke paired_state "tablet" [] "mac" "tablet"
      refresh revoke list connect refl refl refl refl revoke_returns tt
