-- ===== src/Relay/Auth/Pop.antt =====
-- services/relay/src/auth/pop.rs: the time window of a signed request, and the texts that are signed.
use your_connector.Common.{ℕ, ◌||◌, String, ◌<>◌, Result, or_fail, refuse, ltb, saturating_add}
use your_connector.Common.Text.{trim, parse_u64, to_decimal}
use your_connector.Relay.Api.{ApiError, api_error, bad_request, unauthorized, pop_max_skew_sec}

unfoldable pub parse_ts : String → String → String → Result ApiError ℕ
parse_ts raw code message =
    or_fail (parse_u64 (trim raw)) (api_error bad_request code message "请刷新后重试")

unfoldable pub verify_ts_window : ℕ → ℕ → String → String → Result ApiError (Unit {0})
verify_ts_window now ts code message =
    refuse
      (ltb (saturating_add ts pop_max_skew_sec) now || ltb (saturating_add now pop_max_skew_sec) ts)
      (api_error unauthorized code message "请重新发起请求")

infixr 65 ◌|n|◌
-- two parts with a line break between them
abbrev pub ◌|n|◌ : String → String → String
a |n| b = a <> ("\n" <> b)

unfoldable pub ws_pop_payload : String → String → String → ℕ → String → String
ws_pop_payload system_id device_id key_id ts nonce =
    "ws" |n| system_id |n| device_id |n| key_id |n| to_decimal ts |n| nonce

unfoldable pub pair_exchange_payload : String → String → String → String
pair_exchange_payload system_id device_id key_id =
    "pair-exchange" |n| system_id |n| device_id |n| key_id

unfoldable pub auth_refresh_payload : String → String → String → ℕ → String → String
auth_refresh_payload system_id device_id key_id ts nonce =
    "auth-refresh" |n| system_id |n| device_id |n| key_id |n| to_decimal ts |n| nonce

unfoldable pub auth_revoke_payload : String → String → String → String → ℕ → String → String
auth_revoke_payload system_id device_id target_device_id key_id ts nonce =
    "auth-revoke"
    |n| system_id
    |n| device_id
    |n| target_device_id
    |n| key_id
    |n| to_decimal ts
    |n| nonce

unfoldable pub auth_list_payload : String → String → String → ℕ → String → String
auth_list_payload system_id device_id key_id ts nonce =
    "auth-list-devices" |n| system_id |n| device_id |n| key_id |n| to_decimal ts |n| nonce
