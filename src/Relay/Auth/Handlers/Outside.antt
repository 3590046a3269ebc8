-- ===== src/Relay/Auth/Handlers/Outside.antt =====
-- What one run of a handler reads from outside, and `persist_auth_store`.
use your_connector.Common.{ℕ, String, Result, map_err}
use your_connector.Common.Exec.{Exec, lift}
use your_connector.Relay.Api.{ApiError, api_error, internal_server_error}

-- Each call of `unix_now` and of the random generator has a field of its own.
pub record Readings : Type 0 where
  -- `unix_now` in `verify_ts_window`
  pub window_now : ℕ
  -- in `consume_auth_nonce`
  pub nonce_now : ℕ
  -- in `verify_access_token`, and at the expiry of a refresh session
  pub check_now : ℕ
  -- in `issue_access_token`
  pub issue_now : ℕ
  -- in `issue_refresh_session`
  pub session_now : ℕ
  -- `now_rfc3339_nanos`
  pub now_text : String
  -- `Uuid::new_v4().simple()` for the access token, the session and the credential
  pub jti : String
  pub session_uuid : String
  pub credential_uuid : String
  -- the two that make the secret of a refresh token
  pub secret : String
  -- what `persist_auth_store` returned
  pub written : Result String (Unit {0})

-- `persist_auth_store(..).map_err(..)?`
abbrev pub persist : {S : Type 0} → Readings → Exec S ApiError (Unit {0})
persist r =
    lift (map_err (λ e. api_error internal_server_error "INTERNAL_ERROR" e "请稍后重试") r.written)
