-- ===== src/Relay/Auth/Handlers/Refresh.antt =====
-- services/relay/src/auth/handlers/refresh.rs: the rotation of a refresh session
use your_connector.Common.{◌||◌, none, some, String, err, refuse, or_fail, string_eq}
use your_connector.Common.Exec.{Exec, lift, gets, modify, pure, ◌>>=◌, ◌>>◌}
use your_connector.Common.HashMap
use your_connector.Common.Text.{trim, is_empty}
use your_connector.Relay.Api.{
  ApiError, api_error, bad_request, unauthorized, SystemAuthState, AuthRefreshRequest,
  AuthRefreshData, access_token_ttl_sec, refresh_token_ttl_sec,
}
use your_connector.Relay.External.{Crypto}
use your_connector.Relay.Auth.Pop.{parse_ts, verify_ts_window, auth_refresh_payload}
use your_connector.Relay.Auth.Token.{issue_access_token, issue_refresh_session, parse_refresh_token}
use your_connector.Relay.State.{AppState, consume_auth_nonce, put_auth}
use your_connector.Relay.Auth.Handlers.Outside.{Readings, persist}
use your_connector.Relay.Auth.Handlers.Session.{
  refresh_invalid, check_session, revoke_session, put_session,
}

module _ (c : Crypto) (r : Readings) where
  -- from the lookup of the old session to the end of the handler, on one system
  unfoldable pub rotate_session :
      String
      → String
      → String
      → String
      → String
      → String
      → String
      → String
      → Exec SystemAuthState ApiError AuthRefreshData
  rotate_session signing_key system_id device_id key_id session_id refresh_secret payload sig = do
    system ← gets (λ s. s)
    old ← lift (
        or_fail (HashMap.get session_id system.refresh_sessions)
          (refresh_invalid "refreshToken 无效"))
    lift
        (check_session c r.check_now system.devices old refresh_secret device_id key_id payload sig)
    modify (λ s. record s {
      refresh_sessions =
          HashMap.insert session_id (revoke_session r.now_text old) s.refresh_sessions;
    })
    access_token ← lift (
        issue_access_token c r.issue_now r.jti signing_key system_id device_id key_id
          access_token_ttl_sec)
    let issued =
        issue_refresh_session c r.session_now r.now_text r.session_uuid r.secret system_id device_id
          key_id old.credential_id
    modify (put_session (record issued.1 { rotated_from = some old.session_id }))
    persist r
    pure (record {
      access_token = access_token;
      refresh_token = issued.0;
      key_id = key_id;
      credential_id = old.credential_id;
      access_expires_in_sec = access_token_ttl_sec;
      refresh_expires_in_sec = refresh_token_ttl_sec;
    })

-- A method of one system's metadata, run on the relay's state.
unfoldable pub on_system :
    {A : Type 0} → String → ApiError → Exec SystemAuthState ApiError A → Exec AppState ApiError A
on_system system_id missing method s = elim (HashMap.get system_id s.auth_store.systems) [
  | none ↦ (err missing, s)
  | some system ↦ let (result, after) = method system in (result, put_auth after system_id s)
]

module _ (c : Crypto) (r : Readings) where
  unfoldable pub refresh_device_credential :
      AuthRefreshRequest → Exec AppState ApiError AuthRefreshData
  refresh_device_credential req = do
    let system_id = trim req.system_id
    let device_id = trim req.device_id
    let key_id = trim req.key_id
    lift (
        refuse (is_empty system_id || is_empty device_id || is_empty key_id)
          (api_error bad_request "MISSING_CREDENTIALS" "刷新参数不完整" "请重新登录设备"))
    ts ← lift (parse_ts req.ts "ACCESS_SIGNATURE_EXPIRED" "签名时间戳无效")
    lift (verify_ts_window r.window_now ts "ACCESS_SIGNATURE_EXPIRED" "签名时间窗已过期")
    consume_auth_nonce r.nonce_now "refresh" req.nonce ts
    let payload = auth_refresh_payload system_id device_id key_id ts req.nonce
    (session_id, refresh_secret) ← lift (parse_refresh_token req.refresh_token)
    signing_key ← gets (λ s. s.auth_store.signing_key)
    on_system system_id (api_error unauthorized "SYSTEM_NOT_REGISTERED" "system 未注册" "请重新配对") (
        rotate_session c r signing_key system_id device_id key_id session_id refresh_secret payload
          req.sig)
