-- ===== src/Relay/Ops/Devices.antt =====
-- A device that is revoked stays barred until it is paired again.
use your_connector.Common.{
  ℕ, ◌≡◌, ◌≢◌, refl, false, some, String, List, [], ◌∷◌, ◌==◌, string_eq, All, arith,
}
use your_connector.Common.Exec.{Keeps, keeps_rules}
use your_connector.Common.HashMap
use your_connector.Common.HashMap.{HashMap, get-insert}
use your_connector.Common.Text.{trim}
use your_connector.Relay.Api.{
  SystemAuthState, DeviceCredential, RefreshSession, PairAuthMode, AuthRefreshRequest,
  AuthRevokeDeviceRequest, AuthDevicesQuery, PairExchangeRequest, PairPreflightRequest,
}
use your_connector.Relay.External.{Crypto}
use your_connector.Relay.State.{AppState}
use your_connector.Relay.Auth.Handlers.{
  Readings, refresh_device_credential, rotate_session, revoke_device, revoke_target, list_devices,
}
use your_connector.Relay.Pairing.Handlers.{
  preflight_pair_credentials, exchange_device_credential, bind_device,
}
use your_connector.Relay.Ops.{
  Op, refreshes, revokes, lists, exchanges, preflights, connects, step, run,
}
use your_connector.Relay.Ops.AtSystem.{
  AtSystem, AtSystem-lift, AtSystem-lift_mut, AtSystem-consume, AtSystem-verify_pair_ticket,
}
use your_connector.Relay.Ops.Connect.{AtSystem-connect}

-- The device is unknown, or its status is not ACTIVE.
pub record IsBarred (did : String) (system : SystemAuthState) : Type 0 where
  pub barred :
      (device : DeviceCredential)
      → HashMap.get did system.devices ≡ some device
      → (device.status == "ACTIVE") ≡ false

pub revoked_not_active : ◌==◌ {A = String} "REVOKED" "ACTIVE" ≡ false
unfolding string_eq
revoked_not_active = refl

module _ (did : String) where
  -- Only the devices count.
  IsBarred-same : (a b : SystemAuthState) → b.devices ≡ a.devices → IsBarred did a → IsBarred did b
  IsBarred-same a b same h = record { barred = λ device e. h.barred device (rw (← same) e) }

  IsBarred-insert :
      (k : String) (device : DeviceCredential) (system system' : SystemAuthState)
      → system'.devices ≡ HashMap.insert k device system.devices
      → (did ≡ k → (device.status == "ACTIVE") ≡ false)
      → IsBarred did system
      → IsBarred did system'
  IsBarred-insert k device system system' same inactive h = record { barred = at_device }
    where
      at_device :
          (d : DeviceCredential)
          → HashMap.get did system'.devices ≡ some d
          → (d.status == "ACTIVE") ≡ false
      at_device d e = elim (string_eq.dec did k) [
        | yes here ↦
            let same_device : device ≡ d =
              ground (arith, get-insert did k device system.devices, same) in
            rw (← same_device) (inactive here)
        | no other ↦ h.barred d (ground (arith, get-insert did k device system.devices, same))
      ]

  rotate_session-IsBarred :
      (c : Crypto) (r : Readings)
      (signing_key system_id device_id key_id session_id refresh_secret payload sig : String)
      → Keeps (IsBarred did) (
          rotate_session c r signing_key system_id device_id key_id session_id refresh_secret
            payload sig)
  unfolding rotate_session
  rotate_session-IsBarred c r signing_key system_id device_id key_id session_id refresh_secret
        payload sig =
      search (keeps_rules, sessions) depth 14
    where
      sessions :
          (x : HashMap String RefreshSession) (s : SystemAuthState)
          → IsBarred did s
          → IsBarred did (record s { refresh_sessions = x })
      sessions x s h = IsBarred-same s _ refl h

  revoke_target-IsBarred :
      (r : Readings) (target : String) → Keeps (IsBarred did) (revoke_target r target)
  unfolding revoke_target
  revoke_target-IsBarred r target = search (keeps_rules, revoked) depth 14
    where
      revoked :
          (x : HashMap String RefreshSession) (device : DeviceCredential) (s : SystemAuthState)
          → IsBarred did s
          → IsBarred did (record s {
            devices =
                HashMap.insert target
                  (record device { status = "REVOKED"; revoked_at = some r.now_text })
                  s.devices;
            refresh_sessions = x;
          })
      revoked x device s h = IsBarred-insert target _ s _ refl (λ _. revoked_not_active) h

  bind_device-IsBarred :
      (c : Crypto) (r : Readings) (mode : PairAuthMode)
      (signing_key system_id device_id key_id pubkey device_name : String)
      → did ≢ device_id
      → Keeps
          (IsBarred did)
          (bind_device c r mode signing_key system_id device_id key_id pubkey device_name)
  unfolding bind_device
  bind_device-IsBarred c r mode signing_key system_id device_id key_id pubkey device_name other =
      search (keeps_rules, bound, sessions) depth 14
    where
      bound :
          (device : DeviceCredential) (s : SystemAuthState)
          → IsBarred did s
          → IsBarred did (record s { devices = HashMap.insert device_id device s.devices })
      bound device s h = IsBarred-insert device_id device s _ refl (λ e. absurd (other e)) h

      sessions :
          (x : HashMap String RefreshSession) (s : SystemAuthState)
          → IsBarred did s
          → IsBarred did (record s { refresh_sessions = x })
      sessions x s h = IsBarred-same s _ refl h

-- The request is no exchange of a pairing ticket for this device of this system.
abbrev pub NoPairing : String → String → Op → Type 0
NoPairing system_id did (exchanges r req) =
    system_id ≡ trim req.system_id → did ≢ trim req.device_id
NoPairing system_id did _ = Unit {0}

module _ (c : Crypto) (system_id did : String) where
  abbrev pub StaysOut : AppState → Type 0
  StaysOut = AtSystem system_id (IsBarred did)

  refresh-StaysOut :
      (r : Readings) (req : AuthRefreshRequest) → Keeps StaysOut (refresh_device_credential c r req)
  unfolding refresh_device_credential
  refresh-StaysOut r req =
      search
        (
          keeps_rules,
          AtSystem-consume system_id (IsBarred did),
          AtSystem-lift system_id (IsBarred did),
          rotate_session-IsBarred did,
        )
        depth 14

  revoke-StaysOut :
      (r : Readings) (req : AuthRevokeDeviceRequest) → Keeps StaysOut (revoke_device c r req)
  unfolding revoke_device
  revoke-StaysOut r req =
      search
        (
          keeps_rules,
          AtSystem-consume system_id (IsBarred did),
          AtSystem-lift system_id (IsBarred did),
          revoke_target-IsBarred did,
        )
        depth 14

  list-StaysOut : (r : Readings) (req : AuthDevicesQuery) → Keeps StaysOut (list_devices c r req)
  unfolding list_devices
  list-StaysOut r req = search (keeps_rules, AtSystem-consume system_id (IsBarred did)) depth 14

  exchange-StaysOut :
      (r : Readings) (req : PairExchangeRequest)
      → (system_id ≡ trim req.system_id → did ≢ trim req.device_id)
      → Keeps StaysOut (exchange_device_credential c r req)
  unfolding exchange_device_credential
  exchange-StaysOut r req other =
      search
        (
          keeps_rules,
          AtSystem-verify_pair_ticket system_id (IsBarred did),
          AtSystem-lift_mut system_id (IsBarred did),
          bind_device-IsBarred did,
        )
        depth 14

  preflight-StaysOut :
      (now : ℕ) (req : PairPreflightRequest) → Keeps StaysOut (preflight_pair_credentials c now req)
  unfolding preflight_pair_credentials
  preflight-StaysOut now req =
      search (keeps_rules, AtSystem-verify_pair_ticket system_id (IsBarred did)) depth 14

  step-StaysOut :
      (s : AppState) (o : Op) → NoPairing system_id did o → StaysOut s → StaysOut (step c s o)
  unfolding step
  step-StaysOut s (refreshes r req) f h = (refresh-StaysOut r req).at s h
  step-StaysOut s (revokes r req) f h = (revoke-StaysOut r req).at s h
  step-StaysOut s (lists r req) f h = (list-StaysOut r req).at s h
  step-StaysOut s (exchanges r req) f h = (exchange-StaysOut r req f).at s h
  step-StaysOut s (preflights now req) f h = (preflight-StaysOut now req).at s h
  step-StaysOut s (connects r q) f h =
      (AtSystem-connect system_id (IsBarred did) c r q
          (λ system hash text k. IsBarred-same did system _ refl k)
          (λ now_text device_id system device stored k.
            IsBarred-insert did device_id _ system _ refl (λ same. k.barred device (rw same stored))
              k)).at
        s h

  pub run-StaysOut :
      (s : AppState) (os : List Op)
      → All (NoPairing system_id did) os
      → StaysOut s
      → StaysOut (run c s os)
  unfolding run
  run-StaysOut s [] f h = h
  run-StaysOut s (o ∷ os) (f, fs) h = run-StaysOut (step c s o) os fs (step-StaysOut s o f h)
