-- ===== src/Relay/Auth/Handlers/Session.antt =====
-- services/relay/src/auth/handlers/refresh.rs: the checks of the old session, and the new one
use your_connector.Common.{
  ℕ, not, ◌||◌, some, is_some, String, Result, refuse, or_fail, ◌==◌, string_eq, leb, ◌>>=◌, ◌>>◌,
}
use your_connector.Common.HashMap
use your_connector.Common.HashMap.{HashMap}
use your_connector.Relay.Api.{
  ApiError, api_error, unauthorized, DeviceCredential, RefreshSession, SystemAuthState,
}
use your_connector.Relay.External.{Crypto}
use your_connector.Relay.Auth.TokenCrypto.{sha256_hex, verify_pop_signature}

abbrev pub refresh_invalid : String → ApiError
refresh_invalid message = api_error unauthorized "REFRESH_TOKEN_INVALID" message "请重新配对"

unfoldable pub check_session :
    Crypto
    → ℕ
    → HashMap String DeviceCredential
    → RefreshSession
    → String
    → String
    → String
    → String
    → String
    → Result ApiError (Unit {0})
check_session c now devices old refresh_secret device_id key_id payload sig = do
  refuse (is_some old.revoked_at) (refresh_invalid "refreshToken 已失效")
  refuse (leb old.expires_at now)
      (api_error unauthorized "REFRESH_TOKEN_EXPIRED" "refreshToken 已过期" "请重新配对")
  refuse (not (sha256_hex c refresh_secret == old.refresh_secret_hash))
      (refresh_invalid "refreshToken 校验失败")
  refuse (not (old.device_id == device_id) || not (old.key_id == key_id))
      (refresh_invalid "refreshToken 与设备不匹配")
  device ←
      or_fail (HashMap.get device_id devices)
        (api_error unauthorized "DEVICE_REVOKED" "设备未绑定" "请重新配对")
  refuse (not (device.status == "ACTIVE")) (api_error unauthorized "DEVICE_REVOKED" "设备已吊销" "请重新配对")
  verify_pop_signature c device.public_key payload sig

-- `Some(session_id)` is marked as revoked at `now_text`
abbrev pub revoke_session : String → RefreshSession → RefreshSession
revoke_session now_text old = record old { revoked_at = some now_text }

abbrev pub put_session : RefreshSession → SystemAuthState → SystemAuthState
put_session session system = record system {
  refresh_sessions = HashMap.insert session.session_id session system.refresh_sessions;
}
