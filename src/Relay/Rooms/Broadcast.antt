-- ===== src/Relay/Rooms/Broadcast.antt =====
-- Who is offered a broadcast, and who is disconnected by one.
use your_connector.Common.{
  ◌≡◌, refl, not, Bool, true, false, Option, some, is_some, String, List, [], ◌∷◌, ◌==◌, string_eq,
  if◌then◌else◌, arith,
}
use your_connector.Common.HashMap
use your_connector.Common.HashMap.{HashMap, get-insert, get-remove}
use your_connector.Relay.State.{ClientHandle, SystemRoom, AppState}
use your_connector.Relay.Rooms.{
  RelayWriteCommand, Queued, sent, full, closed, is_snapshot_event, command_of, Sweep, settle_send,
  sweep, broadcast,
}

-- everyone but the origin, each with the command
abbrev pub offers :
    String → RelayWriteCommand → HashMap String ClientHandle → List (String × RelayWriteCommand)
offers origin_id command [] = []
offers origin_id command ((id, _) ∷ clients) =
    let rest = offers origin_id command clients in
    if id == origin_id then rest else (id, command) ∷ rest

-- does the outcome disconnect a client
abbrev pub loses : Bool → Queued → Bool
loses is_snapshot sent = false
loses is_snapshot closed = true
loses is_snapshot full = not is_snapshot

module _ (queued : String → Queued) (origin_id : String) (is_snapshot : Bool)
    (command : RelayWriteCommand) where
  settle_send-offered :
      (q : Queued) (id : String) (handle : ClientHandle) (rest : Sweep)
      → (settle_send is_snapshot q id handle rest).offered ≡ rest.offered
  unfolding settle_send
  settle_send-offered sent id handle rest = refl
  settle_send-offered full id handle rest = ground arith
  settle_send-offered closed id handle rest = refl

  sweep-offered :
      (clients : HashMap String ClientHandle)
      → (sweep queued origin_id is_snapshot command clients).offered
        ≡ offers origin_id command clients
  unfolding sweep
  sweep-offered [] = refl
  sweep-offered ((id, handle) ∷ clients) = grind (arith, sweep-offered clients, settle_send-offered)

  settle_send-present :
      (q : Queued) (id k : String) (handle : ClientHandle) (rest : Sweep)
      → is_some (HashMap.get k (settle_send is_snapshot q id handle rest).clients)
        ≡ (if k == id then true else is_some (HashMap.get k rest.clients))
  unfolding settle_send HashMap.get
  settle_send-present sent id k handle rest = ground arith
  settle_send-present full id k handle rest = ground arith
  settle_send-present closed id k handle rest = ground arith

  sweep-present :
      (k : String) (clients : HashMap String ClientHandle)
      → is_some (HashMap.get k (sweep queued origin_id is_snapshot command clients).clients)
        ≡ is_some (HashMap.get k clients)
  unfolding sweep HashMap.get
  sweep-present k [] = refl
  sweep-present k ((id, handle) ∷ clients) =
      grind (arith, sweep-present k clients, settle_send-present)

  settle_send-stale :
      (q : Queued) (id : String) (handle : ClientHandle) (rest : Sweep)
      → (settle_send is_snapshot q id handle rest).stale
        ≡ (if loses is_snapshot q then id ∷ rest.stale else rest.stale)
  unfolding settle_send
  settle_send-stale sent id handle rest = refl
  settle_send-stale full id handle rest = ground arith
  settle_send-stale closed id handle rest = refl

  sweep-none_stale :
      (clients : HashMap String ClientHandle)
      → ((id : String) → loses is_snapshot (queued id) ≡ false)
      → (sweep queued origin_id is_snapshot command clients).stale ≡ []
  unfolding sweep
  sweep-none_stale [] h = refl
  sweep-none_stale ((id, handle) ∷ clients) h =
      grind (arith, sweep-none_stale clients h, settle_send-stale, h id)

module _ (target_tool_id : String → Option String) (queued : String → Queued)
    (system_id origin_id msg event_type : String) (s : AppState) (room : SystemRoom)
    (found : HashMap.get system_id s.systems ≡ some room) where
  -- A broadcast is offered to every client of the room but its origin, in one command that carries
  -- the message.
  pub broadcast-offers :
      (broadcast target_tool_id queued system_id origin_id msg event_type s).1
      ≡ offers origin_id (command_of target_tool_id msg event_type) room.clients
  unfolding broadcast
  broadcast-offers = rw (
    broadcast,
    found,
    sweep-offered queued origin_id (is_snapshot_event event_type)
        (command_of target_tool_id msg event_type) room.clients,
  )

  -- A broadcast for which no answer of `try_send` loses a client (none is `closed`, and for an event
  -- that is no snapshot none is `full` either) keeps the room with all its clients, and closes no
  -- connection.
  pub broadcast_keeps :
      (id : String)
      → ((k : String) → loses (is_snapshot_event event_type) (queued k) ≡ false)
      → let (t, offered, closing) =
          broadcast target_tool_id queued system_id origin_id msg event_type s in
        (r : SystemRoom) × (HashMap.get system_id t.systems ≡ some r)
        × (is_some (HashMap.get id r.clients) ≡ is_some (HashMap.get id room.clients))
        × (closing ≡ [])
  unfolding broadcast
  broadcast_keeps id h =
      rw
        (
          broadcast,
          found,
          sweep-none_stale queued origin_id (is_snapshot_event event_type)
              (command_of target_tool_id msg event_type) room.clients h,
        )
        (
          record room {
            clients =
                (sweep queued origin_id (is_snapshot_event event_type)
                  (command_of target_tool_id msg event_type) room.clients).clients;
          },
          rw get-insert (ground arith),
          sweep-present queued origin_id (is_snapshot_event event_type)
              (command_of target_tool_id msg event_type) id room.clients,
          refl,
        )
