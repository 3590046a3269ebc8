-- ===== src/Relay/Ops/Revocation.antt =====
-- A revoked device is refused everywhere.
use your_connector.Common.{
  ℕ, ◌≡◌, refl, false, some, String, List, ok, is_ok, ◌==◌, string_eq, All, inl, inr, Option-cases,
  arith,
}
use your_connector.Common.Exec.{
  keeps_rules, Makes, Makes-modify, Makes-bind-first, Makes-bind-rest, makes_rules, Fails,
  Fails-gets-lift, fails_rules, modify,
}
use your_connector.Common.HashMap
use your_connector.Common.HashMap.{HashMap, get-insert}
use your_connector.Common.Text.{trim}
use your_connector.Relay.Api.{
  ApiError, SystemAuthState, DeviceCredential, RefreshSession, AuthRefreshRequest,
  AuthRevokeDeviceRequest, AuthDevicesQuery, WsQuery,
}
use your_connector.Relay.External.{Crypto}
use your_connector.Relay.State.{AppState}
use your_connector.Relay.Auth.Handlers.{
  Readings, verify_access_http, refresh_device_credential, rotate_session, revoke_device,
  revoke_target, revoke_if, list_devices,
}
use your_connector.Relay.Auth.Handlers.Session.{check_session}
use your_connector.Relay.Ws.Access.{Signed, check_device}
use your_connector.Relay.Ws.Auth.{authorize_app_with_access}
use your_connector.Relay.Ops.{Op, run}
use your_connector.Relay.Ops.AtSystem.{AtSystem, AtSystem-consume, AtSystem-Fails, AtSystem-Makes}
use your_connector.Relay.Ops.Devices.{IsBarred, revoked_not_active, NoPairing, run-StaysOut}

module _ (c : Crypto) (did : String) where
  -- The check of an access token refuses a barred device.
  verify_access_http_barred :
      (now : ℕ) (s : AppState) (system_id key_id token payload sig : String)
      → AtSystem system_id (IsBarred did) s
      → is_ok (verify_access_http c now s.auth_store system_id did key_id token payload sig) ≡ false
  unfolding verify_access_http
  verify_access_http_barred now s system_id key_id token payload sig h =
      elim (Option-cases (HashMap.get did h.system.devices)) [
        | inl missing ↦ ground (arith, h.found)
        | inr (device, stored) ↦
            let inactive = h.holds.barred device stored in ground (arith, h.found)
      ]

  check_device_barred :
      (now : ℕ) (s : AppState) (system_id : String) (signed : Signed)
      → AtSystem system_id (IsBarred did) s
      → is_ok (check_device c now s.auth_store system_id did signed) ≡ false
  unfolding check_device
  check_device_barred now s system_id signed h =
      elim (Option-cases (HashMap.get did h.system.devices)) [
        | inl missing ↦ ground (arith, h.found)
        | inr (device, stored) ↦
            let inactive = h.holds.barred device stored in ground (arith, h.found)
      ]

  check_session_barred :
      (now : ℕ) (old : RefreshSession) (secret key_id payload sig : String)
      (system : SystemAuthState)
      → IsBarred did system
      → is_ok (check_session c now system.devices old secret did key_id payload sig) ≡ false
  unfolding check_session
  check_session_barred now old secret key_id payload sig system h =
      elim (Option-cases (HashMap.get did system.devices)) [
        | inl missing ↦ ground arith
        | inr (device, stored) ↦ let inactive = h.barred device stored in ground arith
      ]

  rotate_session-IsBarred-Fails :
      (r : Readings) (signing_key system_id key_id session_id secret payload sig : String)
      → Fails
          (IsBarred did)
          (rotate_session c r signing_key system_id did key_id session_id secret payload sig)
  unfolding rotate_session
  rotate_session-IsBarred-Fails r signing_key system_id key_id session_id secret payload sig =
      record {
        at = λ s h. elim (Option-cases (HashMap.get session_id s.refresh_sessions)) [
          | inl missing ↦ rw missing
          | inr (old, stored) ↦
              rw stored
                (ground (arith, check_session_barred r.check_now old secret key_id payload sig s h))
        ];
      }

  IsBarred-insert_self :
      (device : DeviceCredential) (system system' : SystemAuthState)
      → system'.devices ≡ HashMap.insert did device system.devices
      → (device.status == "ACTIVE") ≡ false
      → IsBarred did system'
  IsBarred-insert_self device system system' same inactive = record {
    barred = λ d e.
        let same_device : device ≡ d =
          ground (arith, get-insert did did device system.devices, same) in
        rw (← same_device) inactive;
  }

  marks :
      (now_text : String) (device : DeviceCredential)
      → Makes (IsBarred did) (
          modify {E = ApiError} (λ (s : SystemAuthState). record s {
            devices =
                HashMap.insert did
                  (record device { status = "REVOKED"; revoked_at = some now_text })
                  s.devices;
            refresh_sessions = HashMap.map_values (revoke_if now_text did) s.refresh_sessions;
          }))
  marks now_text device = Makes-modify _ λ s.
      IsBarred-insert_self (record device { status = "REVOKED"; revoked_at = some now_text }) s _
        refl revoked_not_active

  revoke_target_bars : (r : Readings) → Makes (IsBarred did) (revoke_target r did)
  unfolding revoke_target
  revoke_target_bars r = search (keeps_rules, Makes-bind-rest, Makes-bind-first, marks) depth 12

  module _ (system_id : String) where
    abbrev pub Out : AppState → Type 0
    Out = AtSystem system_id (IsBarred did)

    refresh_barred :
        (r : Readings) (req : AuthRefreshRequest)
        → trim req.system_id ≡ system_id
        → trim req.device_id ≡ did
        → Fails Out (refresh_device_credential c r req)
    unfolding refresh_device_credential
    refresh_barred r req p q =
        rw (p, q)
          (search
            (
              fails_rules,
              keeps_rules,
              AtSystem-consume system_id (IsBarred did),
              AtSystem-Fails system_id (IsBarred did),
              rotate_session-IsBarred-Fails,
            )
            depth 14)

    revoke_barred :
        (r : Readings) (req : AuthRevokeDeviceRequest)
        → trim req.system_id ≡ system_id
        → trim req.device_id ≡ did
        → Fails Out (revoke_device c r req)
    unfolding revoke_device
    revoke_barred r req p q =
        rw (p, q)
          (search
            (
              Fails-gets-lift,
              fails_rules,
              keeps_rules,
              AtSystem-consume system_id (IsBarred did),
              verify_access_http_barred,
            )
            depth 14)

    list_barred :
        (r : Readings) (req : AuthDevicesQuery)
        → trim req.system_id ≡ system_id
        → trim req.device_id ≡ did
        → Fails Out (list_devices c r req)
    unfolding list_devices
    list_barred r req p q =
        rw (p, q)
          (search
            (
              Fails-gets-lift,
              fails_rules,
              keeps_rules,
              AtSystem-consume system_id (IsBarred did),
              verify_access_http_barred,
            )
            depth 14)

    connect_barred :
        (r : Readings) (q : WsQuery)
        → q.system_id ≡ system_id
        → q.device_id ≡ did
        → Fails Out (authorize_app_with_access c r q)
    unfolding authorize_app_with_access
    connect_barred r q p e =
        rw (p, e) (search (Fails-gets-lift, fails_rules, keeps_rules, check_device_barred) depth 14)

    revoke-Makes-Out :
        (r : Readings) (req : AuthRevokeDeviceRequest)
        → trim req.system_id ≡ system_id
        → trim req.target_device_id ≡ did
        → Makes Out (revoke_device c r req)
    unfolding revoke_device
    revoke-Makes-Out r req p q =
        rw (p, q)
          (search (makes_rules, AtSystem-Makes system_id (IsBarred did), revoke_target_bars) depth
            14)

-- After a revocation that returned, the revoked device gets nowhere until it is paired again:
-- whatever requests and connections came in between, short of an exchange for it, a refresh, a
-- revocation, a listing and a signed connection in its name are all refused.
pub revoked_device_refused :
    (c : Crypto) (r r' : Readings) (req : AuthRevokeDeviceRequest) (s : AppState) (reply : String)
    (between : List Op) (system_id did : String) (refresh : AuthRefreshRequest)
    (revoke : AuthRevokeDeviceRequest) (list : AuthDevicesQuery) (connect : WsQuery)
    → trim system_id ≡ system_id
    → trim did ≡ did
    → trim req.system_id ≡ system_id
    → trim req.target_device_id ≡ did
    → (revoke_device c r req s).0 ≡ ok reply
    → All (NoPairing system_id did) between
    → let t = run c (revoke_device c r req s).1 between in
      (is_ok
          (refresh_device_credential c r'
            (record refresh { system_id = system_id; device_id = did })
            t).0
        ≡ false)
      × (is_ok (revoke_device c r' (record revoke { system_id = system_id; device_id = did }) t).0
          ≡ false)
      × (is_ok (list_devices c r' (record list { system_id = system_id; device_id = did }) t).0
          ≡ false)
      × (is_ok
            (authorize_app_with_access c r'
              (record connect { system_id = system_id; device_id = did })
              t).0
          ≡ false)
revoked_device_refused c r r' req s reply between system_id did refresh revoke list connect trimmed
      trimmed_did p q returned others =
    let out =
      run-StaysOut c system_id did _ between others
        ((revoke-Makes-Out c did system_id r req p q).at s reply returned) in
    (
      (refresh_barred c did system_id r' _ trimmed trimmed_did).at _ out,
      (revoke_barred c did system_id r' _ trimmed trimmed_did).at _ out,
      (list_barred c did system_id r' _ trimmed trimmed_did).at _ out,
      (connect_barred c did system_id r' _ refl refl).at _ out,
    )
