-- ===== src/Relay/Ws/Access.antt =====
-- services/relay/src/ws/handlers/auth.rs: what `authorize_app_with_access` checks before it looks at
-- the room. The query's fields, the time window, and the device in the stored metadata.
use your_connector.Common.{
  ℕ, not, Option, none, some, String, Result, ok, ◌>>=◌, ◌>>◌, refuse, or_fail, ◌==◌, string_eq,
  if◌then◌else◌,
}
use your_connector.Common.HashMap
use your_connector.Common.Text.{trim, is_empty}
use your_connector.Relay.Api.{
  ApiError, api_error, bad_request, unauthorized, AuthStore, DeviceCredential, WsQuery,
}
use your_connector.Relay.External.{Crypto}
use your_connector.Relay.Auth.Pop.{parse_ts, verify_ts_window, ws_pop_payload}
use your_connector.Relay.Auth.Token.{verify_access_token}
use your_connector.Relay.Auth.TokenCrypto.{verify_pop_signature}
use your_connector.Relay.Pairing.Bootstrap.{or_empty}

-- `.as_deref().map(str::trim).filter(|v| !v.is_empty())`
abbrev pub trimmed : Option String → Option String
trimmed none = none
trimmed (some s) = let t = trim s in if is_empty t then none else some t

-- the fields of a signed connection
pub record Signed : Type 0 where
  pub access_token : String
  pub key_id : String
  pub ts : ℕ
  pub nonce : String
  pub sig : String

abbrev missing : String → String → ApiError
missing = api_error bad_request "MISSING_CREDENTIALS"

unfoldable pub read_signed_query : ℕ → WsQuery → Result ApiError Signed
read_signed_query now q = do
  access_token ← or_fail (trimmed q.access_token) (missing "缺少 accessToken" "请重新配对并连接")
  key_id ← or_fail (trimmed q.key_id) (missing "缺少 keyId" "请重新配对并连接")
  ts ← parse_ts (or_empty q.ts) "ACCESS_SIGNATURE_EXPIRED" "签名时间戳无效"
  verify_ts_window now ts "ACCESS_SIGNATURE_EXPIRED" "签名时间窗已过期"
  nonce ← or_fail (trimmed q.nonce) (missing "缺少 nonce" "请重新连接")
  sig ← or_fail (trimmed q.sig) (missing "缺少签名" "请重新连接")
  ok (record { access_token = access_token; key_id = key_id; ts = ts; nonce = nonce; sig = sig })

-- the block that reads the metadata and yields `device.clone()`
unfoldable pub check_device :
    Crypto → ℕ → AuthStore → String → String → Signed → Result ApiError DeviceCredential
check_device c now store system_id device_id signed = do
  let payload = ws_pop_payload system_id device_id signed.key_id signed.ts signed.nonce
  verify_access_token c now signed.access_token store.signing_key system_id device_id signed.key_id
  system ← or_fail (HashMap.get system_id store.systems) (
      api_error unauthorized "SYSTEM_NOT_REGISTERED" "system 未注册，请先启动 sidecar" "先启动宿主机 sidecar 再配对")
  device ←
      or_fail (HashMap.get device_id system.devices)
        (api_error unauthorized "DEVICE_REVOKED" "设备未绑定或已被移除" "请重新扫码配对")
  refuse (not (device.status == "ACTIVE"))
      (api_error unauthorized "DEVICE_REVOKED" "设备已被吊销" "请重新扫码配对")
  verify_pop_signature c device.public_key payload signed.sig
  ok device
