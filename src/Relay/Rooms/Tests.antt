-- ===== src/Relay/Rooms/Tests.antt =====
-- The theorems on rooms, at a room with one sidecar and one app.
use your_connector.Common.{
  ◌≡◌, refl, true, false, Option, none, some, is_some, [], ◌∷◌, String, ok, string_eq,
  saturating_add,
}
use your_connector.Common.HashMap
use your_connector.Common.Text.{split, trim}
use your_connector.Relay.Toy.{toy, toy_ticket}
use your_connector.Relay.Pairing.Ticket.{
  check_ticket, read_ticket, check_claims, verify_pairing_ticket,
}
use your_connector.Relay.State.{ClientHandle, SystemRoom, AppState, has_online_sidecar}
use your_connector.Relay.Rooms.{
  Queued, full, command_of, is_snapshot_event, insert, remove, broadcast,
}
use your_connector.Relay.Rooms.Broadcast.{offers, broadcast-offers, broadcast_keeps}
use your_connector.Relay.Rooms.Drop.{IsLeft, remove_leaves, drop_forgets}

abbrev sidecar : ClientHandle
sidecar = record { client_type = "sidecar"; drop_count = 0 }

abbrev app : ClientHandle
app = record { client_type = "app"; drop_count = 0 }

abbrev room : SystemRoom
room = record {
  pair_token = "secret";
  ticket_nonces = ("n1", 400) ∷ [];
  app_nonces = [];
  clients = ("c1", sidecar) ∷ ("c2", app) ∷ [];
}

abbrev state : AppState
state = record {
  systems = ("mac", room) ∷ [];
  auth_store = record { version = 1; signing_key = "key"; systems = [] };
  auth_nonces = [];
}

found : HashMap.get "mac" state.systems ≡ some room
unfolding HashMap.get string_eq
found = refl

abbrev no_target : String → Option String
no_target raw = none

abbrev all_full : String → Queued
all_full id = full

broadcast-offers_example :
    (broadcast no_target all_full "mac" "c1" "m" "heartbeat" state).1
    ≡ offers "c1" (command_of no_target "m" "heartbeat") room.clients
broadcast-offers_example =
    broadcast-offers no_target all_full "mac" "c1" "m" "heartbeat" state room found

broadcast_keeps_example :
    let (t, offered, closing) = broadcast no_target all_full "mac" "c1" "m" "heartbeat" state in
    (r : SystemRoom) × (HashMap.get "mac" t.systems ≡ some r)
    × (is_some (HashMap.get "c2" r.clients) ≡ is_some (HashMap.get "c2" room.clients))
    × (closing ≡ [])
unfolding is_snapshot_event string_eq
broadcast_keeps_example =
    broadcast_keeps no_target all_full "mac" "c1" "m" "heartbeat" state room found "c2" (λ k. refl)

remove_leaves_example :
    IsLeft "c2" "c1"
      (HashMap.get "mac" state.systems)
      (HashMap.get "mac" (remove "mac" "c2" state).0.systems)
    × (HashMap.get "pc" (remove "mac" "c2" state).0.systems ≡ HashMap.get "pc" state.systems)
remove_leaves_example = remove_leaves "mac" "c2" "pc" "c1" state (λ e. cc e)

sidecar_gone :
    has_online_sidecar (record room { clients = HashMap.remove "c1" room.clients }) ≡ false
unfolding has_online_sidecar HashMap.remove string_eq
sidecar_gone = refl

good_ticket : check_ticket toy 150 "pct_v1.b.b" "mac" "secret" ≡ ok toy_ticket
unfolding check_ticket read_ticket toy string_eq split check_claims trim saturating_add
good_ticket = refl

-- The room had the ticket's nonce among the used ones.
drop_forgets_example :
    (fresh : SystemRoom) × (HashMap.get "mac"
        (insert "mac" "secret" "c3" sidecar (remove "mac" "c1" state).0).systems
      ≡ some fresh)
    × ((verify_pairing_ticket toy 150 "pct_v1.b.b" "mac" "secret" fresh.ticket_nonces true).0
        ≡ ok tt)
drop_forgets_example =
    drop_forgets toy state room "mac" "c1" "secret" "c3" sidecar 150 "pct_v1.b.b" toy_ticket found
      sidecar_gone good_ticket
