-- ===== src/Relay/Auth/Handlers/Verify.antt =====
-- services/relay/src/auth/handlers/verify.rs
use your_connector.Common.{ℕ, not, String, Result, ◌>>=◌, ◌>>◌, refuse, or_fail, ◌==◌, string_eq}
use your_connector.Common.HashMap
use your_connector.Relay.Api.{ApiError, api_error, unauthorized, AuthStore}
use your_connector.Relay.External.{Crypto}
use your_connector.Relay.Auth.Token.{verify_access_token}
use your_connector.Relay.Auth.TokenCrypto.{verify_pop_signature}

unfoldable pub verify_access_http :
    Crypto
    → ℕ
    → AuthStore
    → String
    → String
    → String
    → String
    → String
    → String
    → Result ApiError (Unit {0})
verify_access_http c now store system_id device_id key_id access_token payload sig = do
  verify_access_token c now access_token store.signing_key system_id device_id key_id
  system ←
      or_fail (HashMap.get system_id store.systems)
        (api_error unauthorized "SYSTEM_NOT_REGISTERED" "system 未注册" "请先启动 sidecar")
  device ←
      or_fail (HashMap.get device_id system.devices)
        (api_error unauthorized "DEVICE_REVOKED" "设备未绑定" "请重新配对")
  refuse (not (device.status == "ACTIVE")) (api_error unauthorized "DEVICE_REVOKED" "设备已吊销" "请重新配对")
  verify_pop_signature c device.public_key payload sig
