-- ===== src/Relay/Ws/Takeover.antt =====
-- `authorize_connection` of services/relay/src/ws/handlers/auth.rs for a second sidecar.
use your_connector.Common.{
  ℕ, ◌<◌, ◌≡◌, refl, true, false, some, is_ok, ◌==◌, string_eq, inl, inr, String, err, Bool-cases,
  arith, eqb,
}
use your_connector.Common.HashMap
use your_connector.Common.Text.{trim, is_empty}
use your_connector.Relay.Api.{WsQuery}
use your_connector.Relay.External.{Crypto}
use your_connector.Relay.State.{AppState, SystemRoom}
use your_connector.Relay.Auth.Handlers.{Readings}
use your_connector.Relay.Auth.Token.{authorize_pair_token}
use your_connector.Relay.Ws.Auth.{
  sidecar_clients, join_room, authorize_sidecar, authorize_connection,
}

mismatch_refused :
    (existing client_type incoming : String) (n : ℕ)
    → (existing == incoming) ≡ false
    → 0 < n
    → (message : String) × (authorize_pair_token (some existing) n client_type incoming
        ≡ err message)
unfolding authorize_pair_token
mismatch_refused existing client_type incoming n differ online =
    elim (Bool-cases (is_empty (trim incoming))) [
      | inl blank ↦ ("pairToken 不能为空", rw blank refl)
      | inr filled ↦
          let busy : eqb n 0 ≡ false = ground arith in
          ("pairToken 不匹配", ground (arith, filled, differ, busy))
    ]

-- While a sidecar of a system is connected, a sidecar with another pair token is refused, and the
-- refusal changes nothing.
pub takeover_refused :
    (c : Crypto) (r : Readings) (q : WsQuery) (s : AppState) (room : SystemRoom)
    → q.client_type ≡ "sidecar"
    → HashMap.get q.system_id s.systems ≡ some room
    → 0 < sidecar_clients room.clients
    → (room.pair_token == trim q.pair_token) ≡ false
    → (is_ok (authorize_connection c r q s).0 ≡ false) × ((authorize_connection c r q s).1 ≡ s)
unfolding authorize_connection authorize_sidecar join_room
takeover_refused c r q s room is_sidecar found online differ =
    let (message, refused) =
      mismatch_refused room.pair_token q.client_type (trim q.pair_token)
        (sidecar_clients room.clients) differ online in
    let sidecar : (q.client_type == "sidecar") ≡ true = ground (arith, is_sidecar) in
    elim (Bool-cases (is_empty (trim q.pair_token))) [
      | inl blank ↦ rw (sidecar, blank) (refl, refl)
      | inr filled ↦ rw (sidecar, filled, authorize_sidecar, found, join_room, refused) (refl, refl)
    ]
