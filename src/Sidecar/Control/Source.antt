-- ===== src/Sidecar/Control/Source.antt =====
-- Who a command is from, as the sidecar reads it in a message that the relay has passed.
use your_connector.Common.{◌≡◌, refl, ◌∙◌, some, String, ok, arith, Option-cases, inl, inr}
use your_connector.Common.Options.{or_else}
use your_connector.Common.Json
use your_connector.Common.Json.{Value, text, object, Fields, value_get, trimmed_text}
use your_connector.Common.Text.{trim}
use your_connector.Relay.Ws.Envelope.{Fresh, sanitize_fields}
use your_connector.Relay.Ws.Envelope.Stamped.{sanitize_fields-Stamped}
use your_connector.Sidecar.Control.{SidecarCommandEnvelope}
use your_connector.Sidecar.Control.Parse.{command_of, command_envelope, object_or_empty}

-- what an event that is a command says of its source
envelope_source :
    (uuid : String) (event : Value) (e : SidecarCommandEnvelope)
    → command_envelope uuid event ≡ some e
    → (e.source_client_type ≡ trimmed_text (value_get "sourceClientType" event))
      × (e.source_device_id
          ≡ trimmed_text (or_else (value_get "sourceDeviceId" event) (value_get "peerId" event)))
      × (e.event_type ≡ trimmed_text (value_get "type" event))
unfolding command_envelope
envelope_source uuid event e h =
    elim (Option-cases (
      command_of uuid (trimmed_text (value_get "type" event))
        (trimmed_text (or_else (value_get "sourceDeviceId" event) (value_get "peerId" event)))
        (object_or_empty (value_get "payload" event)))) [
          | inl no_command ↦ absurd (ground (arith, h, no_command))
          | inr (command, parsed) ↦ ground (arith, h, parsed)
        ]

-- A command that the sidecar reads in a message which the relay passed, its fields in any order,
-- carries the kind of client and the device of the connection on which the relay got it, trimmed,
-- whatever the client wrote.
pub relayed_source :
    (fresh : Fresh) (system_id client_type device_id : String) (sent out read : Fields)
    (uuid : String) (e : SidecarCommandEnvelope)
    → sanitize_fields fresh system_id client_type device_id sent ≡ ok out
    → ((k : String) → Json.get k read ≡ Json.get k out)
    → command_envelope uuid (object read) ≡ some e
    → (e.source_client_type ≡ trim client_type) × (e.source_device_id ≡ trim device_id)
unfolding trimmed_text
relayed_source fresh system_id client_type device_id sent out read uuid e passed same parsed =
    let (stamped, payload, kept, filled) =
      sanitize_fields-Stamped fresh system_id client_type device_id sent out passed in
    let (client, device, event_type) = envelope_source uuid (object read) e parsed in
    (
      client ∙ rw (same "sourceClientType", stamped.client) refl,
      device ∙ rw (same "sourceDeviceId", stamped.device) refl,
    )
