-- ===== src/Relay/Rooms.antt =====
-- services/relay/src/state.rs: rooms and broadcasting. A channel belongs to its connection's writer
-- task, so what `try_send` answers for a client is an argument, and what it was given is a result.
pub mod Broadcast
pub mod Drop
mod Tests
use your_connector.Common.{
  ℕ, ◌+◌, ◌%◌, ◌^◌, ◌&&◌, ◌||◌, not, Bool, true, false, Option, none, some, is_some, String, ◌<>◌,
  List, [], ◌∷◌, ◌==◌, string_eq, any, if◌then◌else◌, length,
}
use your_connector.Common.HashMap
use your_connector.Common.HashMap.{HashMap}
use your_connector.Relay.State.{ClientHandle, SystemRoom, has_online_sidecar, AppState}

-- `axum::extract::ws::Message`, as far as the relay sends it
pub data Message : Type 0 where
  text : String → Message
  close : Message

pub data RelayWriteCommand : Type 0 where
  direct : Message → RelayWriteCommand
  snapshot : String → Message → RelayWriteCommand

-- what `try_send` answers
pub data Queued : Type 0 where
  sent full closed : Queued

unfoldable pub is_snapshot_event : String → Bool
is_snapshot_event event_type =
    event_type == "heartbeat"
    || event_type == "metrics_snapshot"
    || event_type == "tools_snapshot"
    || event_type == "tools_candidates"
    || event_type == "tool_details_snapshot"

-- `target_tool_id` is what serde finds at `payload.targetToolId` of a message, if it is a text.
unfoldable pub snapshot_queue_key : (String → Option String) → String → String → String
snapshot_queue_key target_tool_id event_type raw =
    if event_type == "tool_details_snapshot"
    then event_type <> (":" <> elim (target_tool_id raw) [ none ↦ "" | some id ↦ id ])
    else event_type

abbrev fresh_room : String → SystemRoom
fresh_room pair_token = record {
  pair_token = pair_token;
  ticket_nonces = HashMap.empty;
  app_nonces = HashMap.empty;
  clients = HashMap.empty;
}

abbrev room_or_fresh : String → Option SystemRoom → SystemRoom
room_or_fresh pair_token none = fresh_room pair_token
room_or_fresh pair_token (some room) = room

unfoldable pub insert : String → String → String → ClientHandle → AppState → AppState
insert system_id pair_token client_id handle s =
    let room = room_or_fresh pair_token (HashMap.get system_id s.systems) in
    record s {
      systems =
          HashMap.insert system_id
            (record room { clients = HashMap.insert client_id handle room.clients }) s.systems;
    }

abbrev pub no_clients : HashMap String ClientHandle → Bool
no_clients [] = true
no_clients (e ∷ clients) = false

-- `Close` to every connection that is left
abbrev closes : HashMap String ClientHandle → List (String × RelayWriteCommand)
closes [] = []
closes ((id, handle) ∷ clients) = (id, direct close) ∷ closes clients

-- the end of `remove` and of `broadcast`: `room` is what is left of the system's room
unfoldable pub keep_or_drop :
    String → SystemRoom → AppState → AppState × List (String × RelayWriteCommand)
keep_or_drop system_id room s =
    if no_clients room.clients || not (has_online_sidecar room)
    then (record s { systems = HashMap.remove system_id s.systems }, closes room.clients)
    else (record s { systems = HashMap.insert system_id room s.systems }, [])

unfoldable pub remove : String → String → AppState → AppState × List (String × RelayWriteCommand)
remove system_id client_id s = elim (HashMap.get system_id s.systems) [
  | none ↦ (s, [])
  | some room ↦
      keep_or_drop system_id (record room { clients = HashMap.remove client_id room.clients }) s
]

-- What the loop of `broadcast` did: the commands that were offered, the stale clients, and the
-- clients with their counts.
pub record Sweep : Type 0 where
  pub offered : List (String × RelayWriteCommand)
  pub stale : List String
  pub clients : HashMap String ClientHandle

abbrev count_drop : ClientHandle → ClientHandle
count_drop handle = record handle { drop_count = (handle.drop_count + 1) % 2 ^ 64 }

-- the `match queued`
unfoldable pub settle_send : Bool → Queued → String → ClientHandle → Sweep → Sweep
settle_send is_snapshot sent id handle rest = record rest { clients = (id, handle) ∷ rest.clients }
settle_send is_snapshot closed id handle rest = record rest {
  stale = id ∷ rest.stale;
  clients = (id, handle) ∷ rest.clients;
}
settle_send is_snapshot full id handle rest =
    if is_snapshot
    then record rest { clients = (id, count_drop handle) ∷ rest.clients }
    else record rest { stale = id ∷ rest.stale; clients = (id, handle) ∷ rest.clients }

module _ (queued : String → Queued) (origin_id : String) (is_snapshot : Bool)
    (command : RelayWriteCommand) where
  -- the loop over `room.clients`
  unfoldable pub sweep : HashMap String ClientHandle → Sweep
  unfolding settle_send
  sweep [] = record { offered = []; stale = []; clients = [] }
  sweep ((id, handle) ∷ clients) =
      let rest = sweep clients in
      if id == origin_id
      then record rest { clients = (id, handle) ∷ rest.clients }
      else settle_send is_snapshot (queued id) id handle
          (record rest { offered = (id, command) ∷ rest.offered })

abbrev remove_all : List String → HashMap String ClientHandle → HashMap String ClientHandle
remove_all [] clients = clients
remove_all (id ∷ ids) clients = remove_all ids (HashMap.remove id clients)

abbrev pub command_of : (String → Option String) → String → String → RelayWriteCommand
command_of target_tool_id msg event_type =
    if is_snapshot_event event_type
    then snapshot (snapshot_queue_key target_tool_id event_type msg) (text msg)
    else direct (text msg)

-- `drop_count` is shared, so the counts stand whatever follows; `room` holds them.
abbrev finish :
    String → List String → SystemRoom → AppState → AppState × List (String × RelayWriteCommand)
finish system_id [] room s = (record s { systems = HashMap.insert system_id room s.systems }, [])
finish system_id (id ∷ ids) room s =
    keep_or_drop system_id (record room { clients = remove_all (id ∷ ids) room.clients }) s

-- the new state, the commands that were offered in the loop, and the ones that close connections
unfoldable pub broadcast :
    (String → Option String)
    → (String → Queued)
    → String
    → String
    → String
    → String
    → AppState
    → AppState × List (String × RelayWriteCommand) × List (String × RelayWriteCommand)
broadcast target_tool_id queued system_id origin_id msg event_type s =
    elim (HashMap.get system_id s.systems) [
      | none ↦ (s, [], [])
      | some room ↦
          let swept =
            sweep queued origin_id (is_snapshot_event event_type)
              (command_of target_tool_id msg event_type) room.clients in
          let (t, closing) =
            finish system_id swept.stale (record room { clients = swept.clients }) s in
          (t, swept.offered, closing)
    ]

unfoldable pub room_sizes : HashMap String SystemRoom → HashMap String ℕ
room_sizes [] = []
room_sizes ((system_id, room) ∷ rooms) = (system_id, length room.clients) ∷ room_sizes rooms
