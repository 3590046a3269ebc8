-- ===== src/Relay/Auth/Token.antt =====
-- services/relay/src/auth/token.rs. Time and the random parts are arguments.
pub mod Sound
pub mod RoundTrip
use your_connector.Common.{
  ℕ, not, ◌||◌, ◌&&◌, Option, none, some, String, ◌<>◌, Result, ok, err, ◌>>=◌, ◌>>◌, refuse,
  or_fail, map_err, ◌==◌, string_eq, leb, eqb, length, if◌then◌else◌, saturating_add,
}
use your_connector.Common.Text.{as_bytes, split, part, join_three, trim, is_empty}
use your_connector.Relay.Api.{
  ApiError, api_error, unauthorized, internal_server_error, AccessTokenClaims, RefreshSession,
  PairTokenAuthDecision, allow, rotate, initialize, refresh_token_ttl_sec,
}
use your_connector.Relay.External.{Crypto, bytes_equal}
use your_connector.Relay.Auth.TokenCrypto.{hmac_b64url, sha256_hex}

unfoldable pub authorize_pair_token :
    Option String → ℕ → String → String → Result String PairTokenAuthDecision
authorize_pair_token existing_pair_token active_client_count client_type incoming_pair_token =
    if is_empty (trim incoming_pair_token) then err "pairToken 不能为空" else elim existing_pair_token [
      | none ↦
          if client_type == "sidecar" then ok initialize else err "system 未注册，请先启动 sidecar 完成配对"
      | some existing ↦
          if existing == incoming_pair_token
          then ok allow
          else if client_type == "sidecar" && eqb active_client_count 0
          then ok rotate
          else err "pairToken 不匹配"
    ]

abbrev token_invalid : String → ApiError
token_invalid message = api_error unauthorized "ACCESS_TOKEN_INVALID" message "请重新配对"

module _ (c : Crypto) where
  unfoldable pub issue_access_token :
      ℕ → String → String → String → String → String → ℕ → Result ApiError String
  unfolding hmac_b64url
  issue_access_token now jti signing_key system_id device_id key_id ttl_sec = do
    payload ←
        map_err
          (λ e.
            api_error internal_server_error "INTERNAL_ERROR"
              ("encode access token claims failed: " <> e) "请稍后重试")
          (c.access_to_json (record {
            sid = system_id;
            did = device_id;
            kid = key_id;
            iat = now;
            exp = saturating_add now ttl_sec;
            jti = jti;
          }))
    let payload_b64 = c.b64_encode (as_bytes payload)
    sig_b64 ← hmac_b64url c signing_key (as_bytes payload_b64)
    ok (join_three "yat_v1" payload_b64 sig_b64)

  -- the part of `verify_access_token` that reads the token alone
  unfoldable pub read_access_token : String → String → Result ApiError AccessTokenClaims
  unfolding bytes_equal
  read_access_token token signing_key = do
    let parts = split b'.' token
    let payload_b64 = part 1 parts
    let sig_b64 = part 2 parts
    refuse
        (not (part 0 parts == "yat_v1")
          || is_empty payload_b64
          || is_empty sig_b64
          || not (leb (length parts) 3))
        (token_invalid "accessToken 格式无效")
    sig ← or_fail (c.b64_decode sig_b64) (token_invalid "accessToken 签名格式无效")
    tag ←
        or_fail (c.hmac_sha256 (as_bytes signing_key) (as_bytes payload_b64))
          (token_invalid "accessToken 签名器无效")
    refuse (not (bytes_equal tag sig)) (token_invalid "accessToken 签名校验失败")
    payload_raw ← or_fail (c.b64_decode payload_b64) (token_invalid "accessToken payload 无效")
    or_fail (c.access_from_json payload_raw) (token_invalid "accessToken claims 无效")

  unfoldable pub verify_access_token :
      ℕ → String → String → String → String → String → Result ApiError AccessTokenClaims
  verify_access_token now token signing_key expected_system expected_device expected_key_id = do
    claims ← read_access_token token signing_key
    refuse
        (not (claims.sid == expected_system)
          || not (claims.did == expected_device)
          || not (claims.kid == expected_key_id))
        (api_error unauthorized "ACCESS_TOKEN_MISMATCH" "accessToken 与当前连接信息不匹配" "请重新配对")
    refuse (leb claims.exp now)
        (api_error unauthorized "ACCESS_TOKEN_EXPIRED" "accessToken 已过期" "请刷新凭证或重新配对")
    ok claims

  -- the refresh token, and the session that is kept of it; `session_uuid` and `secret` are random
  unfoldable pub issue_refresh_session :
      ℕ → String → String → String → String → String → String → String → String × RefreshSession
  issue_refresh_session now now_text session_uuid secret system_id device_id key_id credential_id =
      (
        join_three "yrt_v1" ("rs_" <> session_uuid) secret,
        record {
          session_id = "rs_" <> session_uuid;
          system_id = system_id;
          device_id = device_id;
          key_id = key_id;
          credential_id = credential_id;
          refresh_secret_hash = sha256_hex c secret;
          expires_at = saturating_add now refresh_token_ttl_sec;
          created_at = now_text;
          revoked_at = none;
          rotated_from = none;
        },
      )

unfoldable pub parse_refresh_token : String → Result ApiError (String × String)
parse_refresh_token token = do
  let parts = split b'.' token
  let session = part 1 parts
  let secret = part 2 parts
  refuse
      (not (part 0 parts == "yrt_v1")
        || is_empty session
        || is_empty secret
        || not (leb (length parts) 3))
      (api_error unauthorized "REFRESH_TOKEN_INVALID" "refreshToken 格式无效" "请重新配对")
  ok (session, secret)
