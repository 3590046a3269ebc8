-- ===== src/Relay/Ops/Sessions.antt =====
-- A refresh session that is revoked stays revoked, and its token is refused for ever.
use your_connector.Common.{
  ℕ, ◌≡◌, ◌≢◌, refl, true, some, is_some, String, ◌<>◌, List, [], ◌∷◌, string_eq, All, arith,
}
use your_connector.Common.Exec.{Keeps, keeps_rules}
use your_connector.Common.HashMap
use your_connector.Common.HashMap.{get-insert, get-map_values}
use your_connector.Relay.Api.{
  RefreshSession, SystemAuthState, PairAuthMode, DeviceCredential, AuthRefreshRequest,
  AuthRevokeDeviceRequest, AuthDevicesQuery, PairExchangeRequest, PairPreflightRequest,
}
use your_connector.Relay.External.{Crypto}
use your_connector.Relay.State.{AppState}
use your_connector.Relay.Ops.Connect.{AtSystem-connect}
use your_connector.Relay.Auth.Handlers.{
  Readings, refresh_device_credential, rotate_session, revoke_device, revoke_target, revoke_if,
  list_devices,
}
use your_connector.Relay.Auth.Handlers.Session.{revoke_session, put_session}
use your_connector.Relay.Auth.Token.{issue_refresh_session}
use your_connector.Relay.Pairing.Handlers.{
  preflight_pair_credentials, exchange_device_credential, bind_device,
}
use your_connector.Relay.Ops.{
  Op, refreshes, revokes, lists, exchanges, preflights, connects, step, run,
}
use your_connector.Relay.Ops.AtSystem.{
  AtSystem, AtSystem-lift, AtSystem-lift_mut, AtSystem-consume, AtSystem-verify_pair_ticket,
}

-- The session is stored, with a mark of revocation.
pub record IsRevoked (id : String) (system : SystemAuthState) : Type 0 where
  pub session : RefreshSession
  pub stored : HashMap.get id system.refresh_sessions ≡ some session
  pub revoked : is_some session.revoked_at ≡ true

module _ (id : String) where
  IsRevoked-insert :
      (now_text k : String) (old : RefreshSession) (system : SystemAuthState)
      → IsRevoked id system
      → IsRevoked id (record system {
        refresh_sessions = HashMap.insert k (revoke_session now_text old) system.refresh_sessions;
      })
  IsRevoked-insert now_text k old system h = elim (string_eq.dec id k) [
    | yes same ↦ record {
      session = revoke_session now_text old;
      stored = rw get-insert (ground arith);
      revoked = refl;
    }
    | no differ ↦ record {
      session = h.session;
      stored = rw get-insert (ground (arith, h.stored));
      revoked = h.revoked;
    }
  ]

  pub IsRevoked-put_session :
      (session : RefreshSession) (system : SystemAuthState)
      → session.session_id ≢ id
      → IsRevoked id system
      → IsRevoked id (put_session session system)
  IsRevoked-put_session session system fresh h = record {
    session = h.session;
    stored = rw get-insert (ground (arith, h.stored));
    revoked = h.revoked;
  }

  rotate_session-IsRevoked :
      (c : Crypto) (r : Readings)
      (signing_key system_id device_id key_id session_id refresh_secret payload sig : String)
      → ("rs_" <> r.session_uuid) ≢ id
      → Keeps (IsRevoked id) (
          rotate_session c r signing_key system_id device_id key_id session_id refresh_secret
            payload sig)
  unfolding rotate_session issue_refresh_session
  rotate_session-IsRevoked c r signing_key system_id device_id key_id session_id refresh_secret
        payload sig fresh =
      search (keeps_rules, IsRevoked-insert, IsRevoked-put_session) depth 12

  IsRevoked-device :
      (r : Readings) (target_device_id : String) (devices : HashMap.HashMap String DeviceCredential)
      (system : SystemAuthState)
      → IsRevoked id system
      → IsRevoked id (record system {
        devices = devices;
        refresh_sessions =
            HashMap.map_values (revoke_if r.now_text target_device_id) system.refresh_sessions;
      })
  IsRevoked-device r target_device_id devices system h = record {
    session = revoke_if r.now_text target_device_id h.session;
    stored = rw (get-map_values, h.stored);
    revoked = ground (arith, h.revoked);
  }

  revoke_target-IsRevoked :
      (r : Readings) (target_device_id : String)
      → Keeps (IsRevoked id) (revoke_target r target_device_id)
  unfolding revoke_target
  revoke_target-IsRevoked r target_device_id =
      search (keeps_rules, IsRevoked-device r target_device_id) depth 12

  IsRevoked-devices :
      (devices : HashMap.HashMap String DeviceCredential) (system : SystemAuthState)
      → IsRevoked id system
      → IsRevoked id (record system { devices = devices })
  IsRevoked-devices devices system h = record {
    session = h.session;
    stored = h.stored;
    revoked = h.revoked;
  }

  bind_device-IsRevoked :
      (c : Crypto) (r : Readings) (mode : PairAuthMode)
      (signing_key system_id device_id key_id pubkey device_name : String)
      → ("rs_" <> r.session_uuid) ≢ id
      → Keeps
          (IsRevoked id)
          (bind_device c r mode signing_key system_id device_id key_id pubkey device_name)
  unfolding bind_device issue_refresh_session
  bind_device-IsRevoked c r mode signing_key system_id device_id key_id pubkey device_name fresh =
      search (keeps_rules, IsRevoked-devices, IsRevoked-put_session) depth 12

-- The random part of a new session's id is not that of `id`.
abbrev pub Fresh : String → Op → Type 0
Fresh id (refreshes r req) = ("rs_" <> r.session_uuid) ≢ id
Fresh id (exchanges r req) = ("rs_" <> r.session_uuid) ≢ id
Fresh id _ = Unit {0}

module _ (c : Crypto) (id system_id : String) where
  abbrev IsDead : AppState → Type 0
  IsDead = AtSystem system_id (IsRevoked id)

  refresh-IsDead :
      (r : Readings) (req : AuthRefreshRequest)
      → ("rs_" <> r.session_uuid) ≢ id
      → Keeps IsDead (refresh_device_credential c r req)
  unfolding refresh_device_credential
  refresh-IsDead r req fresh =
      search
        (
          keeps_rules,
          AtSystem-consume system_id (IsRevoked id),
          AtSystem-lift system_id (IsRevoked id),
          rotate_session-IsRevoked id,
        )
        depth 14

  revoke-IsDead :
      (r : Readings) (req : AuthRevokeDeviceRequest) → Keeps IsDead (revoke_device c r req)
  unfolding revoke_device
  revoke-IsDead r req =
      search
        (
          keeps_rules,
          AtSystem-consume system_id (IsRevoked id),
          AtSystem-lift system_id (IsRevoked id),
          revoke_target-IsRevoked id,
        )
        depth 14

  list-IsDead : (r : Readings) (req : AuthDevicesQuery) → Keeps IsDead (list_devices c r req)
  unfolding list_devices
  list-IsDead r req = search (keeps_rules, AtSystem-consume system_id (IsRevoked id)) depth 14

  exchange-IsDead :
      (r : Readings) (req : PairExchangeRequest)
      → ("rs_" <> r.session_uuid) ≢ id
      → Keeps IsDead (exchange_device_credential c r req)
  unfolding exchange_device_credential
  exchange-IsDead r req fresh =
      search
        (
          keeps_rules,
          AtSystem-verify_pair_ticket system_id (IsRevoked id),
          AtSystem-lift_mut system_id (IsRevoked id),
          bind_device-IsRevoked id,
        )
        depth 14

  preflight-IsDead :
      (now : ℕ) (req : PairPreflightRequest) → Keeps IsDead (preflight_pair_credentials c now req)
  unfolding preflight_pair_credentials
  preflight-IsDead now req =
      search (keeps_rules, AtSystem-verify_pair_ticket system_id (IsRevoked id)) depth 14

  step-IsDead : (s : AppState) (o : Op) → Fresh id o → IsDead s → IsDead (step c s o)
  unfolding step
  step-IsDead s (refreshes r req) f h = (refresh-IsDead r req f).at s h
  step-IsDead s (revokes r req) f h = (revoke-IsDead r req).at s h
  step-IsDead s (lists r req) f h = (list-IsDead r req).at s h
  step-IsDead s (exchanges r req) f h = (exchange-IsDead r req f).at s h
  step-IsDead s (preflights now req) f h = (preflight-IsDead now req).at s h
  step-IsDead s (connects r q) f h =
      (AtSystem-connect system_id (IsRevoked id) c r q
          (λ system hash text k. record {
            session = k.session;
            stored = k.stored;
            revoked = k.revoked;
          })
          (λ now_text device_id system device _ k. IsRevoked-devices id _ system k)).at
        s h

  pub run-IsDead :
      (s : AppState) (os : List Op) → All (Fresh id) os → IsDead s → IsDead (run c s os)
  unfolding run
  run-IsDead s [] f h = h
  run-IsDead s (o ∷ os) (f, fs) h = run-IsDead (step c s o) os fs (step-IsDead s o f h)
