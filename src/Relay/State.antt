-- ===== src/Relay/State.antt =====
-- services/relay/src/state.rs: what the relay keeps, and the methods on nonces and metadata. Rooms
-- and their connections are in `Rooms`.
use your_connector.Common.{
  ℕ, Bool, Option, none, some, String, ◌<>◌, refuse, ◌==◌, string_eq, any, ltb, saturating_add,
}
use your_connector.Common.Exec.{Exec, lift, gets, modify, ◌>>=◌, ◌>>◌}
use your_connector.Common.HashMap
use your_connector.Common.HashMap.{HashMap}
use your_connector.Common.Text.{trim, is_empty}
use your_connector.Relay.Api.{
  ApiError, api_error, bad_request, unauthorized, AuthStore, SystemAuthState, default_system,
  pop_max_skew_sec,
}
use your_connector.Relay.External.{Crypto}
use your_connector.Relay.Nonces.{Nonces, prune, seen}
use your_connector.Relay.Auth.TokenCrypto.{sha256_hex}

-- A connection; its channel is the environment's (see `Rooms`).
pub record ClientHandle : Type 0 where
  pub client_type : String
  pub drop_count : ℕ

pub record SystemRoom : Type 0 where
  pub pair_token : String
  pub ticket_nonces : Nonces
  pub app_nonces : Nonces
  pub clients : HashMap String ClientHandle

unfoldable pub has_online_sidecar : SystemRoom → Bool
has_online_sidecar room = any (λ e. e.1.client_type == "sidecar") room.clients

pub record AppState : Type 0 where
  pub systems : HashMap String SystemRoom
  pub auth_store : AuthStore
  pub auth_nonces : Nonces

abbrev pub put_auth : SystemAuthState → String → AppState → AppState
put_auth system system_id s = record s {
  auth_store = record s.auth_store {
    systems = HashMap.insert system_id system s.auth_store.systems;
  };
}

-- `store.system_mut(system_id)`, read
abbrev pub system_or_default : Option SystemAuthState → SystemAuthState
system_or_default none = default_system
system_or_default (some system) = system

abbrev pub system_mut : String → AppState → SystemAuthState
system_mut system_id s = system_or_default (HashMap.get system_id s.auth_store.systems)

-- A failure to write the file is only logged here.
unfoldable pub persist_pair_token_meta : Crypto → String → String → String → AppState → AppState
persist_pair_token_meta c now_text system_id pair_token s =
    put_auth
      (record (system_mut system_id s) {
        pair_token_hash = some (sha256_hex c pair_token);
        pair_token_updated_at = some now_text;
      })
      system_id s

unfoldable pub touch_device_last_seen : String → String → String → AppState → AppState
touch_device_last_seen now_text system_id device_id s =
    elim (HashMap.get system_id s.auth_store.systems) [
      | none ↦ s
      | some system ↦ elim (HashMap.get device_id system.devices) [
        | none ↦ s
        | some device ↦
            put_auth
              (record system {
                devices =
                    HashMap.insert device_id (record device { last_seen_at = now_text })
                      system.devices;
              })
              system_id s
      ]
    ]

-- `now` is the second at which the call runs.
unfoldable pub consume_auth_nonce : ℕ → String → String → ℕ → Exec AppState ApiError (Unit {0})
consume_auth_nonce now scope nonce ts = do
  let normalized = trim nonce
  lift (refuse (is_empty normalized) (api_error bad_request "MISSING_CREDENTIALS" "缺少 nonce" "请重试"))
  lift (
      refuse (ltb (saturating_add now pop_max_skew_sec) ts)
        (api_error unauthorized "ACCESS_SIGNATURE_EXPIRED" "签名时间无效" "请重新发起请求"))
  let key = scope <> (":" <> normalized)
  modify (λ s. record s { auth_nonces = prune 5 now s.auth_nonces })
  nonces ← gets (λ s. s.auth_nonces)
  lift (
      refuse (seen now key nonces)
        (api_error unauthorized "ACCESS_SIGNATURE_REPLAYED" "签名请求重复" "请重新发起请求"))
  modify (λ s. record s {
    auth_nonces = HashMap.insert key (saturating_add now pop_max_skew_sec) s.auth_nonces;
  })
