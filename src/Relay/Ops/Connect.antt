-- ===== src/Relay/Ops/Connect.antt =====
-- What opening a connection does to one system's metadata.
use your_connector.Common.{
  ◌≡◌, refl, Bool, true, false, Option, some, String, inl, inr, string_eq, Option-cases,
  if◌then◌else◌,
}
use your_connector.Common.Exec.{Exec, Keeps, keeps_rules}
use your_connector.Common.HashMap
use your_connector.Relay.Api.{
  SystemAuthState, DeviceCredential, WsQuery, PairTokenAuthDecision, allow, rotate, initialize,
}
use your_connector.Relay.External.{Crypto}
use your_connector.Relay.State.{AppState, SystemRoom}
use your_connector.Relay.Auth.Handlers.{Readings}
use your_connector.Relay.Pairing.Handlers.{put_room}
use your_connector.Relay.Ws.Auth.{
  apply_decision, join_room, authorize_sidecar, enter_room, authorize_app_with_access,
  authorize_connection,
}
use your_connector.Relay.Ops.AtSystem.{
  AtSystem, AtSystem-store, AtSystem-persist_pair_token_meta, AtSystem-touch_device_last_seen,
}

Keeps-if :
    {S E A : Type 0} {P : S → Type 0} (test : Bool) (yes_case no_case : Exec S E A)
    → Keeps P yes_case
    → Keeps P no_case
    → Keeps P (if test then yes_case else no_case)
Keeps-if true yes_case no_case keeps_yes keeps_no = keeps_yes
Keeps-if false yes_case no_case keeps_yes keeps_no = keeps_no

module _ (system_id : String) (P : SystemAuthState → Type 0) (c : Crypto) (r : Readings)
    (q : WsQuery)
    (meta : (system : SystemAuthState) (hash text : Option String)
      → P system
      → P (record system { pair_token_hash = hash; pair_token_updated_at = text }))
    (seen_at : (now_text device_id : String) (system : SystemAuthState) (device : DeviceCredential)
      → HashMap.get device_id system.devices ≡ some device
      → P system
      → P (record system {
        devices =
            HashMap.insert device_id (record device { last_seen_at = now_text }) system.devices;
      })) where
  put_room-AtSystem :
      (other : String) (room : SystemRoom) (s : AppState)
      → AtSystem system_id P s
      → AtSystem system_id P (put_room other room s)
  put_room-AtSystem other room s h = AtSystem-store system_id P s _ refl h

  apply_decision-AtSystem :
      (room : SystemRoom) (d : PairTokenAuthDecision)
      → Keeps (AtSystem system_id P) (apply_decision c r q room d)
  unfolding apply_decision
  apply_decision-AtSystem room allow = search keeps_rules
  apply_decision-AtSystem room initialize = search keeps_rules
  apply_decision-AtSystem room rotate = record {
    at = λ s h.
        AtSystem-persist_pair_token_meta system_id P c _ _ _ _ meta (put_room-AtSystem _ _ s h);
  }

  join_room-AtSystem : (room : SystemRoom) → Keeps (AtSystem system_id P) (join_room c r q room)
  unfolding join_room
  join_room-AtSystem room = search (keeps_rules, apply_decision-AtSystem)

  authorize_sidecar-AtSystem : Keeps (AtSystem system_id P) (authorize_sidecar c r q)
  unfolding authorize_sidecar
  authorize_sidecar-AtSystem = record { at = at_state }
    where
      at_state :
          (s : AppState)
          → AtSystem system_id P s
          → AtSystem system_id P (authorize_sidecar c r q s).1
      at_state s h = elim (Option-cases (HashMap.get q.system_id s.systems)) [
        | inl gone ↦
            rw (gone, authorize_sidecar)
              (AtSystem-persist_pair_token_meta system_id P c _ _ _ _ meta
                (put_room-AtSystem _ _ s h))
        | inr (room, here) ↦ rw (here, authorize_sidecar) ((join_room-AtSystem room).at s h)
      ]

  enter_room-AtSystem :
      (nonce : String) → Keeps (AtSystem system_id P) (enter_room c r q.system_id nonce)
  unfolding enter_room
  enter_room-AtSystem nonce = search (keeps_rules, put_room-AtSystem) depth 14

  app-AtSystem : Keeps (AtSystem system_id P) (authorize_app_with_access c r q)
  unfolding authorize_app_with_access
  app-AtSystem =
      search
        (keeps_rules, enter_room-AtSystem, AtSystem-touch_device_last_seen system_id P, seen_at)
        depth 14

  pub AtSystem-connect : Keeps (AtSystem system_id P) (authorize_connection c r q)
  unfolding authorize_connection
  AtSystem-connect =
      search (Keeps-if, keeps_rules, authorize_sidecar-AtSystem, app-AtSystem) depth 14
