-- ===== src/Relay/Ops/SingleUse.antt =====
-- A refresh token is good for one rotation.
use your_connector.Common.{
  ◌≡◌, ◌≢◌, refl, false, String, ◌<>◌, List, ok, is_ok, string_eq, All, arith,
}
use your_connector.Common.Exec.{
  keeps_rules, Makes, modify, Makes-modify, Makes-bind-first, Makes-bind-rest, makes_rules, Fails,
  fails_rules,
}
use your_connector.Common.HashMap
use your_connector.Common.HashMap.{get-insert}
use your_connector.Common.Text.{trim}
use your_connector.Relay.Api.{ApiError, RefreshSession, AuthRefreshRequest, AuthRefreshData}
use your_connector.Relay.External.{Crypto}
use your_connector.Relay.State.{AppState}
use your_connector.Relay.Auth.Handlers.{Readings, refresh_device_credential, rotate_session}
use your_connector.Relay.Auth.Handlers.Session.{revoke_session, check_session}
use your_connector.Relay.Auth.Token.{parse_refresh_token, issue_refresh_session}
use your_connector.Relay.Ops.{Op, refreshes, run}
use your_connector.Relay.Ops.AtSystem.{AtSystem, AtSystem-consume, AtSystem-Fails, AtSystem-Makes}
use your_connector.Relay.Ops.Sessions.{IsRevoked, IsRevoked-put_session, Fresh, run-IsDead}

module _ (c : Crypto) (id : String) where
  -- The rotation of a revoked session is refused.
  rotate_session-IsRevoked-Fails :
      (r : Readings) (signing_key system_id device_id key_id secret payload sig : String)
      → Fails
          (IsRevoked id)
          (rotate_session c r signing_key system_id device_id key_id id secret payload sig)
  unfolding rotate_session check_session
  rotate_session-IsRevoked-Fails r signing_key system_id device_id key_id secret payload sig =
      record { at = λ s h. rw (h.stored, h.revoked) }

  marks :
      (now_text : String) (old : RefreshSession)
      → Makes (IsRevoked id) (
          modify {E = ApiError} (λ s. record s {
            refresh_sessions = HashMap.insert id (revoke_session now_text old) s.refresh_sessions;
          }))
  marks now_text old = Makes-modify _ λ s. record {
    session = revoke_session now_text old;
    stored = rw get-insert (ground arith);
    revoked = refl;
  }

  -- A rotation that returns has revoked its session.
  rotate_session_revokes :
      (r : Readings) (signing_key system_id device_id key_id secret payload sig : String)
      → ("rs_" <> r.session_uuid) ≢ id
      → Makes
          (IsRevoked id)
          (rotate_session c r signing_key system_id device_id key_id id secret payload sig)
  unfolding rotate_session issue_refresh_session
  rotate_session_revokes r signing_key system_id device_id key_id secret payload sig fresh =
      search (keeps_rules, Makes-bind-rest, Makes-bind-first, marks, IsRevoked-put_session) depth 14

  module _ (r : Readings) (req : AuthRefreshRequest) (secret : String)
      (parsed : parse_refresh_token req.refresh_token ≡ ok (id, secret)) where
    abbrev IsDead : AppState → Type 0
    IsDead = AtSystem (trim req.system_id) (IsRevoked id)

    -- While its session is revoked, a refresh token is refused.
    refresh_refused : Fails IsDead (refresh_device_credential c r req)
    unfolding refresh_device_credential
    refresh_refused = rw parsed (
        search
          (
            fails_rules,
            keeps_rules,
            AtSystem-consume (trim req.system_id) (IsRevoked id),
            AtSystem-Fails (trim req.system_id) (IsRevoked id),
            rotate_session-IsRevoked-Fails,
          )
          depth 14)

    refresh_revokes :
        ("rs_" <> r.session_uuid) ≢ id → Makes IsDead (refresh_device_credential c r req)
    unfolding refresh_device_credential
    refresh_revokes fresh = rw parsed (
        search
          (makes_rules, AtSystem-Makes (trim req.system_id) (IsRevoked id), rotate_session_revokes)
          depth 14)

-- After a refresh that returned, no request with the same refresh token under the same system, up to
-- blanks around its id, returns: whatever its remaining fields, and whatever refreshes, revocations,
-- listings, exchanges, preflights and connections ran in between. The ids of the sessions that the
-- first refresh and the requests in between made are taken to differ from the old one.
pub refresh_once :
    (c : Crypto) (r r' : Readings) (req req' : AuthRefreshRequest) (id secret : String)
    (s : AppState) (reply : AuthRefreshData) (between : List Op)
    → parse_refresh_token req.refresh_token ≡ ok (id, secret)
    → (refresh_device_credential c r req s).0 ≡ ok reply
    → Fresh id (refreshes r req)
    → All (Fresh id) between
    → trim req'.system_id ≡ trim req.system_id
    → req'.refresh_token ≡ req.refresh_token
    → is_ok
        (refresh_device_credential c r' req'
          (run c (refresh_device_credential c r req s).1 between)).0
      ≡ false
refresh_once c r r' req req' id secret s reply between parsed returned fresh others same_system
      same_token =
    (refresh_refused c id r' req' secret (rw same_token parsed)).at _ (
      rw same_system (
        run-IsDead c id (trim req.system_id) _ between others
          ((refresh_revokes c id r req secret parsed fresh).at s reply returned)))
