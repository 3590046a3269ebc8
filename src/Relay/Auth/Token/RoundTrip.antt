-- ===== src/Relay/Auth/Token/RoundTrip.antt =====
-- `issue_refresh_session` and `parse_refresh_token` of services/relay/src/auth/token.rs
use your_connector.Common.{ℕ, ◌≡◌, refl, false, String, ◌<>◌, ok, string_eq, ==_refl}
use your_connector.Common.Text.{contains_char, is_empty, split-join_three}
use your_connector.Relay.External.{Crypto}
use your_connector.Relay.Auth.Token.{issue_refresh_session, parse_refresh_token}

-- The refresh token that is issued with a session is parsed as the session's id and the secret, if
-- neither has a dot and neither is empty.
pub parse-issue :
    (c : Crypto) (now : ℕ)
    (now_text session_uuid secret system_id device_id key_id credential_id : String)
    → contains_char b'.' ("rs_" <> session_uuid) ≡ false
    → is_empty ("rs_" <> session_uuid) ≡ false
    → contains_char b'.' secret ≡ false
    → is_empty secret ≡ false
    → let (token, session) =
        issue_refresh_session c now now_text session_uuid secret system_id device_id key_id
          credential_id in
      parse_refresh_token token ≡ ok (session.session_id, secret)
unfolding issue_refresh_session parse_refresh_token
parse-issue c now now_text session_uuid secret system_id device_id key_id credential_id dots named
      clean filled =
    rw (
      split-join_three "yrt_v1" ("rs_" <> session_uuid) secret refl dots clean,
      ==_refl {A = String} "yrt_v1",
      named,
      filled,
    )
