-- ===== src/Relay/Ops.antt =====
-- The requests that reach the stored metadata of the relay, one after another. A handler runs whole
-- before the next one starts.
pub mod AtSystem
pub mod Connect
pub mod Sessions
pub mod SingleUse
pub mod Devices
pub mod Revocation
use your_connector.Common.{ℕ, String, List, [], ◌∷◌, Result}
use your_connector.Relay.Api.{
  AuthRefreshRequest, AuthRevokeDeviceRequest, AuthDevicesQuery, PairExchangeRequest,
  PairPreflightRequest, WsQuery,
}
use your_connector.Relay.External.{Crypto}
use your_connector.Relay.State.{AppState}
use your_connector.Relay.Ws.Auth.{authorize_connection}
use your_connector.Relay.Auth.Handlers.{
  Readings, refresh_device_credential, revoke_device, list_devices,
}
use your_connector.Relay.Pairing.Handlers.{preflight_pair_credentials, exchange_device_credential}

pub data Op : Type 0 where
  refreshes : Readings → AuthRefreshRequest → Op
  revokes : Readings → AuthRevokeDeviceRequest → Op
  lists : Readings → AuthDevicesQuery → Op
  exchanges : Readings → PairExchangeRequest → Op
  preflights : ℕ → PairPreflightRequest → Op
  connects : Readings → WsQuery → Op

module _ (c : Crypto) where
  unfoldable pub step : AppState → Op → AppState
  step s (refreshes r req) = (refresh_device_credential c r req s).1
  step s (revokes r req) = (revoke_device c r req s).1
  step s (lists r req) = (list_devices c r req s).1
  step s (exchanges r req) = (exchange_device_credential c r req s).1
  step s (preflights now req) = (preflight_pair_credentials c now req s).1
  step s (connects r q) = (authorize_connection c r q s).1

  unfoldable pub run : AppState → List Op → AppState
  unfolding step
  run s [] = s
  run s (o ∷ os) = run (step s o) os
