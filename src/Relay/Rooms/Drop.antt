-- ===== src/Relay/Rooms/Drop.antt =====
-- When a room goes, and what goes with it.
use your_connector.Common.{
  ℕ, ◌≡◌, ◌≢◌, refl, Bool, true, false, Option, none, some, String, [], ◌∷◌, ◌==◌, string_eq, arith,
  Bool-cases, Option-cases, inl, inr, ok, if◌then◌else◌, any,
}
use your_connector.Common.HashMap
use your_connector.Common.HashMap.{HashMap, get-insert, get-remove}
use your_connector.Relay.Api.{PairTicketClaims}
use your_connector.Relay.External.{Crypto}
use your_connector.Relay.Nonces.{Nonces, seen-prune, seen_fresh}
use your_connector.Relay.Pairing.Ticket.{check_ticket, settle, use_nonce, verify_pairing_ticket}
use your_connector.Relay.State.{ClientHandle, SystemRoom, AppState, has_online_sidecar}
use your_connector.Relay.Rooms.{insert, remove, no_clients, keep_or_drop, fresh_room}

some_client :
    (clients : HashMap String ClientHandle)
    → any (λ e. e.1.client_type == "sidecar") clients ≡ true
    → no_clients clients ≡ false
some_client [] h = cc h
some_client (e ∷ clients) h = refl

keep_or_drop-online :
    (system_id : String) (left : SystemRoom) (s : AppState)
    → has_online_sidecar left ≡ true
    → HashMap.get system_id (keep_or_drop system_id left s).0.systems ≡ some left
unfolding has_online_sidecar keep_or_drop
keep_or_drop-online system_id left s h =
    rw (keep_or_drop, some_client left.clients h, h) (rw get-insert (ground arith))

keep_or_drop-other :
    (system_id other : String) (left : SystemRoom) (s : AppState)
    → other ≢ system_id
    → HashMap.get other (keep_or_drop system_id left s).0.systems ≡ HashMap.get other s.systems
unfolding keep_or_drop
keep_or_drop-other system_id other left s d =
    ground (arith, get-insert other system_id left s.systems, get-remove other system_id s.systems)

keep_or_drop-offline :
    (system_id : String) (left : SystemRoom) (s : AppState)
    → has_online_sidecar left ≡ false
    → HashMap.get system_id (keep_or_drop system_id left s).0.systems ≡ none
unfolding keep_or_drop
keep_or_drop-offline system_id left s h = ground (arith, get-remove system_id system_id s.systems)

abbrev without : String → SystemRoom → SystemRoom
without client_id room = record room { clients = HashMap.remove client_id room.clients }

remove_found :
    (system_id client_id : String) (s : AppState) (room : SystemRoom)
    → HashMap.get system_id s.systems ≡ some room
    → remove system_id client_id s ≡ keep_or_drop system_id (without client_id room) s
unfolding remove keep_or_drop
remove_found system_id client_id s room h = rw (remove, h)

remove_missing :
    (system_id client_id : String) (s : AppState)
    → HashMap.get system_id s.systems ≡ none
    → remove system_id client_id s ≡ (s, [])
unfolding remove
remove_missing system_id client_id s h = rw (remove, h)

abbrev is_sidecar : Option ClientHandle → Bool
is_sidecar none = false
is_sidecar (some handle) = handle.client_type == "sidecar"

-- Without a sidecar online, no client is one.
offline_client :
    (pair_token : String) (ticket_nonces app_nonces : Nonces) (id : String)
    (clients : HashMap String ClientHandle)
    → has_online_sidecar (record {
      pair_token = pair_token;
      ticket_nonces = ticket_nonces;
      app_nonces = app_nonces;
      clients = clients;
    })
      ≡ false
    → is_sidecar (HashMap.get id clients) ≡ false
unfolding has_online_sidecar HashMap.get
offline_client pair_token ticket_nonces app_nonces id [] h = refl
offline_client pair_token ticket_nonces app_nonces id ((j, handle) ∷ clients) h =
    ground (arith, offline_client pair_token ticket_nonces app_nonces id clients)

-- What the disconnection of `client_id` makes of a room, seen at the client `id`.
abbrev pub IsLeft : String → String → Option SystemRoom → Option SystemRoom → Type 0
IsLeft client_id id none after = after ≡ none
IsLeft client_id id (some room) none =
    is_sidecar (if id == client_id then none else HashMap.get id room.clients) ≡ false
IsLeft client_id id (some room) (some left) =
    (has_online_sidecar left ≡ true)
    × (HashMap.get id left.clients
        ≡ (if id == client_id then none else HashMap.get id room.clients))
    × (left.pair_token ≡ room.pair_token)
    × (left.ticket_nonces ≡ room.ticket_nonces)
    × (left.app_nonces ≡ room.app_nonces)

keep_or_drop-IsLeft :
    (system_id client_id id : String) (room : SystemRoom) (s : AppState)
    → IsLeft client_id id
        (some room)
        (HashMap.get system_id (keep_or_drop system_id (without client_id room) s).0.systems)
keep_or_drop-IsLeft system_id client_id id room s =
    let here = HashMap.get-remove id client_id room.clients in
    elim (Bool-cases (has_online_sidecar (without client_id room))) [
      | inl online ↦
          let stays = keep_or_drop-online system_id (without client_id room) s online in
          rw stays (online, here, refl, refl, refl)
      | inr offline ↦
          let gone = keep_or_drop-offline system_id (without client_id room) s offline in
          rw (gone, ← here)
            (offline_client room.pair_token room.ticket_nonces room.app_nonces id
              (HashMap.remove client_id room.clients) offline)
    ]

-- A disconnection leaves the rooms of other systems as they are. Of the system's own room, if it is
-- there, it takes the client: the other clients, the token and the used nonces stay, and a sidecar is
-- online in the room; or the room goes, and then no client but the one that left was a sidecar.
pub remove_leaves :
    (system_id client_id other id : String) (s : AppState)
    → other ≢ system_id
    → IsLeft client_id id
        (HashMap.get system_id s.systems)
        (HashMap.get system_id (remove system_id client_id s).0.systems)
      × (HashMap.get other (remove system_id client_id s).0.systems ≡ HashMap.get other s.systems)
remove_leaves system_id client_id other id s d =
    elim (Option-cases (HashMap.get system_id s.systems)) [
      | inl missing ↦ rw (remove_missing system_id client_id s missing, missing) (refl, refl)
      | inr (old, stored) ↦
          rw (remove_found system_id client_id s old stored, stored)
            (
              keep_or_drop-IsLeft system_id client_id id old s,
              keep_or_drop-other system_id other (without client_id old) s d,
            )
    ]

verify_fresh :
    (c : Crypto) (now : ℕ) (ticket system_id pair_token : String) (t : PairTicketClaims)
    → check_ticket c now ticket system_id pair_token ≡ ok t
    → (verify_pairing_ticket c now ticket system_id pair_token [] true).0 ≡ ok tt
unfolding verify_pairing_ticket settle use_nonce
verify_fresh c now ticket system_id pair_token t good =
    rw (good, seen-prune t.nonce 30 now [] (seen_fresh t.nonce now [] (HashMap.get-nil t.nonce)))

-- When the last sidecar of a system leaves, the room goes with its used nonces: in the room that the
-- next connection makes, a ticket that is otherwise good is accepted, whether or not it was consumed
-- before.
pub drop_forgets :
    (c : Crypto) (s : AppState) (room : SystemRoom) (system_id leaving pair_token joining : String)
    (handle : ClientHandle) (now : ℕ) (ticket : String) (t : PairTicketClaims)
    → HashMap.get system_id s.systems ≡ some room
    → has_online_sidecar (record room { clients = HashMap.remove leaving room.clients }) ≡ false
    → check_ticket c now ticket system_id pair_token ≡ ok t
    → (fresh : SystemRoom) × (HashMap.get system_id
          (insert system_id pair_token joining handle (remove system_id leaving s).0).systems
        ≡ some fresh)
      × ((verify_pairing_ticket c now ticket system_id pair_token fresh.ticket_nonces true).0
          ≡ ok tt)
unfolding insert HashMap.get HashMap.insert
drop_forgets c s room system_id leaving pair_token joining handle now ticket t found offline good =
    (
      record (fresh_room pair_token) { clients = HashMap.insert joining handle HashMap.empty },
      rw (insert, gone) (rw get-insert (ground arith)),
      verify_fresh c now ticket system_id pair_token t good,
    )
  where
    gone : HashMap.get system_id (remove system_id leaving s).0.systems ≡ none
    gone =
        rw (remove_found system_id leaving s room found)
          (keep_or_drop-offline system_id (without leaving room) s offline)
