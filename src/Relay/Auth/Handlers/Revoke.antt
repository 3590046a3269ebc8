-- ===== src/Relay/Auth/Handlers/Revoke.antt =====
-- services/relay/src/auth/handlers/revoke.rs
use your_connector.Common.{◌||◌, some, String, refuse, or_fail, ◌==◌, string_eq, if◌then◌else◌}
use your_connector.Common.Exec.{Exec, lift, gets, modify, pure, ◌>>=◌, ◌>>◌}
use your_connector.Common.HashMap
use your_connector.Common.Text.{trim, is_empty}
use your_connector.Relay.Api.{
  ApiError, api_error, bad_request, not_found, RefreshSession, SystemAuthState,
  AuthRevokeDeviceRequest,
}
use your_connector.Relay.External.{Crypto}
use your_connector.Relay.Auth.Pop.{parse_ts, verify_ts_window, auth_revoke_payload}
use your_connector.Relay.State.{AppState, consume_auth_nonce}
use your_connector.Relay.Auth.Handlers.Outside.{Readings, persist}
use your_connector.Relay.Auth.Handlers.Verify.{verify_access_http}
use your_connector.Relay.Auth.Handlers.Refresh.{on_system}

abbrev pub revoke_if : String → String → RefreshSession → RefreshSession
revoke_if now_text device_id session =
    if session.device_id == device_id
    then record session { revoked_at = some now_text }
    else session

-- the changes to one system: the device's status, and all its sessions
unfoldable pub revoke_target : Readings → String → Exec SystemAuthState ApiError String
revoke_target r target_device_id = do
  system ← gets (λ s. s)
  target ← lift (
      or_fail (HashMap.get target_device_id system.devices)
        (api_error not_found "DEVICE_NOT_FOUND" "目标设备不存在" "请刷新后重试"))
  modify (λ s. record s {
    devices =
        HashMap.insert target_device_id
          (record target { status = "REVOKED"; revoked_at = some r.now_text }) s.devices;
    refresh_sessions =
        HashMap.map_values (revoke_if r.now_text target_device_id) s.refresh_sessions;
  })
  persist r
  pure target_device_id

unfoldable pub revoke_device :
    Crypto → Readings → AuthRevokeDeviceRequest → Exec AppState ApiError String
revoke_device c r req = do
  let system_id = trim req.system_id
  let device_id = trim req.device_id
  let key_id = trim req.key_id
  let target_device_id = trim req.target_device_id
  lift (
      refuse
        (is_empty system_id || is_empty device_id || is_empty key_id || is_empty target_device_id)
        (api_error bad_request "MISSING_CREDENTIALS" "吊销参数不完整" "请检查输入后重试"))
  ts ← lift (parse_ts req.ts "ACCESS_SIGNATURE_EXPIRED" "签名时间戳无效")
  lift (verify_ts_window r.window_now ts "ACCESS_SIGNATURE_EXPIRED" "签名时间窗已过期")
  consume_auth_nonce r.nonce_now "revoke" req.nonce ts
  let payload = auth_revoke_payload system_id device_id target_device_id key_id ts req.nonce
  store ← gets (λ s. s.auth_store)
  lift (
      verify_access_http c r.check_now store system_id device_id key_id req.access_token payload
        req.sig)
  on_system system_id (api_error not_found "SYSTEM_NOT_REGISTERED" "system 不存在" "请先完成配对")
      (revoke_target r target_device_id)
