-- ===== src/Relay/Pairing/Handlers/Exchange.antt =====
-- services/relay/src/pairing/handlers/exchange.rs: a ticket is exchanged for a device's credentials
use your_connector.Common.{
  not, ◌||◌, true, none, String, ◌<>◌, refuse, ◌==◌, string_eq, if◌then◌else◌,
}
use your_connector.Common.Exec.{Exec, lift, gets, modify, pure, ◌>>=◌, ◌>>◌}
use your_connector.Common.HashMap
use your_connector.Common.Text.{trim, is_empty, take_chars}
use your_connector.Relay.Api.{
  ApiError, api_error, bad_request, unauthorized, DeviceCredential, SystemAuthState,
  PairExchangeRequest, PairExchangeData, PairAuthMode, access_token_ttl_sec, refresh_token_ttl_sec,
}
use your_connector.Relay.External.{Crypto}
use your_connector.Relay.Auth.Handlers.{Readings, persist}
use your_connector.Relay.Auth.Handlers.Session.{put_session}
use your_connector.Relay.Auth.Pop.{pair_exchange_payload}
use your_connector.Relay.Auth.Token.{issue_access_token, issue_refresh_session}
use your_connector.Relay.Auth.TokenCrypto.{verify_pop_signature, key_id_for_public_key}
use your_connector.Relay.State.{AppState, system_mut, put_auth}
use your_connector.Relay.Pairing.Bootstrap.{or_empty}
use your_connector.Relay.Pairing.Handlers.Ticket.{verify_pair_ticket}

unfoldable pub normalize_device_name : String → String → String
normalize_device_name raw fallback =
    let normalized = trim raw in if is_empty normalized then fallback else take_chars 64 normalized

-- `store.system_mut(system_id)`, which creates the metadata where there is none
unfoldable pub on_system_mut :
    {A : Type 0} → String → Exec SystemAuthState ApiError A → Exec AppState ApiError A
on_system_mut system_id method s =
    let (result, after) = method (system_mut system_id s) in (result, put_auth after system_id s)

module _ (c : Crypto) (r : Readings) where
  -- the changes to the system's metadata, from the insertion of the device on
  unfoldable pub bind_device :
      PairAuthMode
      → String
      → String
      → String
      → String
      → String
      → String
      → Exec SystemAuthState ApiError PairExchangeData
  bind_device mode signing_key system_id device_id key_id pubkey device_name = do
    let credential_id = "crd_" <> r.credential_uuid
    let device : DeviceCredential = record {
      device_id = device_id;
      device_name = normalize_device_name device_name device_id;
      key_id = key_id;
      public_key = pubkey;
      status = "ACTIVE";
      created_at = r.now_text;
      last_seen_at = r.now_text;
      revoked_at = none;
    }
    modify (λ s. record s { devices = HashMap.insert device_id device s.devices })
    access_token ← lift (
        issue_access_token c r.issue_now r.jti signing_key system_id device_id key_id
          access_token_ttl_sec)
    let issued =
        issue_refresh_session c r.session_now r.now_text r.session_uuid r.secret system_id device_id
          key_id credential_id
    modify (put_session issued.1)
    persist r
    pure (record {
      auth_mode = mode;
      access_token = access_token;
      refresh_token = issued.0;
      key_id = key_id;
      credential_id = credential_id;
      access_expires_in_sec = access_token_ttl_sec;
      refresh_expires_in_sec = refresh_token_ttl_sec;
    })

  unfoldable pub exchange_device_credential :
      PairExchangeRequest → Exec AppState ApiError PairExchangeData
  exchange_device_credential req = do
    let system_id = trim req.system_id
    let device_id = trim req.device_id
    let key_id = trim req.key_id
    let pubkey = trim req.device_pub_key
    let proof = trim req.proof
    lift (
        refuse
          (is_empty system_id
            || is_empty device_id
            || is_empty key_id
            || is_empty pubkey
            || is_empty proof)
          (api_error bad_request "MISSING_CREDENTIALS" "换发参数不完整" "请重新扫码或重新粘贴配对链接"))
    lift (
        refuse (not (is_empty (trim (or_empty req.pair_token)))) (
          api_error bad_request "PAIR_TOKEN_NOT_SUPPORTED" "App 配对接口已不支持 pairToken"
            "请改用 sid + pairTicket（扫码或配对链接）"))
    mode ← verify_pair_ticket c r.check_now system_id (trim (or_empty req.pair_ticket)) true
    lift (verify_pop_signature c pubkey (pair_exchange_payload system_id device_id key_id) proof)
    expected_key_id ← lift (key_id_for_public_key c pubkey)
    lift (
        refuse (not (expected_key_id == key_id))
          (api_error unauthorized "PAIR_PROOF_INVALID" "keyId 与设备公钥不匹配" "请重新生成设备绑定信息后重试"))
    signing_key ← gets (λ s. s.auth_store.signing_key)
    on_system_mut system_id
        (bind_device mode signing_key system_id device_id key_id pubkey req.device_name)
