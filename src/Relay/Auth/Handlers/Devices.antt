-- ===== src/Relay/Auth/Handlers/Devices.antt =====
-- services/relay/src/auth/handlers/devices.rs
use Prim.Native.String.{compare}
use Prim.Native.Nat.{Ordering}
use your_connector.Common.{
  ◌||◌, List, [], ◌∷◌, map, String, Bool, true, false, refuse, or_fail, string_eq, if◌then◌else◌,
}
use your_connector.Common.Exec.{Exec, lift, gets, pure, ◌>>=◌, ◌>>◌}
use your_connector.Common.HashMap
use your_connector.Common.Text.{trim, is_empty}
use your_connector.Relay.Api.{
  ApiError, api_error, bad_request, not_found, DeviceCredential, DeviceEntry, AuthDevicesQuery,
}
use your_connector.Relay.External.{Crypto}
use your_connector.Relay.Auth.Pop.{parse_ts, verify_ts_window, auth_list_payload}
use your_connector.Relay.State.{AppState, consume_auth_nonce}
use your_connector.Relay.Auth.Handlers.Outside.{Readings}
use your_connector.Relay.Auth.Handlers.Verify.{verify_access_http}

abbrev pub entry_of : DeviceCredential → DeviceEntry
entry_of item = record {
  device_id = item.device_id;
  device_name = item.device_name;
  key_id = item.key_id;
  status = item.status;
  created_at = item.created_at;
  last_seen_at = item.last_seen_at;
  revoked_at = item.revoked_at;
}

-- `a <= b` of `str::cmp`
abbrev pub str_leb : String → String → Bool
str_leb a b = elim (compare a b) [ Ordering.gt ↦ false | _ ↦ true ]

unfoldable pub insert_sorted : DeviceEntry → List DeviceEntry → List DeviceEntry
insert_sorted x [] = x ∷ []
insert_sorted x (y ∷ ys) =
    if str_leb x.device_id y.device_id then x ∷ y ∷ ys else y ∷ insert_sorted x ys

-- `devices.sort_by(|a, b| a.device_id.cmp(&b.device_id))`, which is stable
unfoldable pub sort_by_device_id : List DeviceEntry → List DeviceEntry
unfolding insert_sorted
sort_by_device_id [] = []
sort_by_device_id (x ∷ xs) = insert_sorted x (sort_by_device_id xs)

unfoldable pub list_devices :
    Crypto → Readings → AuthDevicesQuery → Exec AppState ApiError (List DeviceEntry)
list_devices c r req = do
  let system_id = trim req.system_id
  let device_id = trim req.device_id
  let key_id = trim req.key_id
  lift (
      refuse (is_empty system_id || is_empty device_id || is_empty key_id)
        (api_error bad_request "MISSING_CREDENTIALS" "设备列表参数不完整" "请检查后重试"))
  ts ← lift (parse_ts req.ts "ACCESS_SIGNATURE_EXPIRED" "签名时间戳无效")
  lift (verify_ts_window r.window_now ts "ACCESS_SIGNATURE_EXPIRED" "签名时间窗已过期")
  consume_auth_nonce r.nonce_now "devices" req.nonce ts
  let payload = auth_list_payload system_id device_id key_id ts req.nonce
  store ← gets (λ s. s.auth_store)
  lift (
      verify_access_http c r.check_now store system_id device_id key_id req.access_token payload
        req.sig)
  system ← lift (
      or_fail (HashMap.get system_id store.systems)
        (api_error not_found "SYSTEM_NOT_REGISTERED" "system 不存在" "请重新配对"))
  pure (sort_by_device_id (map (λ e. entry_of e.1) system.devices))
