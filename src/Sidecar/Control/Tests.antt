-- ===== src/Sidecar/Control/Tests.antt =====
-- The theorems on a message of a tablet that names the phone as its source.
use your_connector.Common.{◌≡◌, refl, false, some, ok, string_eq}
use your_connector.Common.Json
use your_connector.Common.Json.{Value, text, object, unsigned, Fields, end, field, trimmed_text}
use your_connector.Common.Text.{trim, is_empty}
use your_connector.Relay.Ws.Envelope.{
  Fresh, fill_blank, fill_missing, is_mismatch, stamp, fill_payload, sanitize_fields,
}
use your_connector.Relay.Ws.Envelope.Stamped.{Stamped, sanitize_fields-Stamped}
use your_connector.Sidecar.Control.{SidecarCommandEnvelope, refresh}
use your_connector.Sidecar.Control.Parse.{command_of, command_envelope}
use your_connector.Sidecar.Control.Source.{relayed_source}

abbrev pub fresh : Fresh
fresh = record { event_uuid = "e"; trace_uuid = "t"; now_text = "now" }

abbrev pub written : Fields
written = field "type" (text "tools_refresh_request") (field "sourceDeviceId" (text "phone") end)

abbrev pub passed : Fields
passed = field "type" (text "tools_refresh_request") (
    field "sourceDeviceId" (text "tablet") (
      field "v" (unsigned 1) (
        field "eventId" (text "evt_e") (
          field "traceId" (text "trc_t") (
            field "systemId" (text "mac") (
              field "sourceClientType" (text "app") (
                field "peerId" (text "tablet")
                  (field "ts" (text "now") (field "payload" (object end) end)))))))))

pub written_passes : sanitize_fields fresh "mac" "app" "tablet" written ≡ ok passed
unfolding sanitize_fields fill_blank fill_missing is_mismatch stamp fill_payload Json.insert
    Json.get trimmed_text trim string_eq
written_passes = refl

abbrev pub command : SidecarCommandEnvelope
command = record {
  event_type = "tools_refresh_request";
  event_id = "evt_e";
  trace_id = "trc_t";
  command = refresh;
  source_client_type = "app";
  source_device_id = "tablet";
}

pub passed_reads : command_envelope "u" (object passed) ≡ some command
unfolding command_envelope command_of Json.get trimmed_text trim string_eq
passed_reads = refl

sanitize_fields-Stamped_example :
    Stamped "mac" "app" "tablet" passed
    × ((p : Fields) × (Json.get "payload" passed ≡ some (object p)))
    × (Json.get "type" passed ≡ Json.get "type" written)
    × (is_empty (trimmed_text (Json.get "type" written)) ≡ false)
sanitize_fields-Stamped_example =
    sanitize_fields-Stamped fresh "mac" "app" "tablet" written passed written_passes

relayed_source_example :
    (command.source_client_type ≡ trim "app") × (command.source_device_id ≡ trim "tablet")
relayed_source_example =
    relayed_source fresh "mac" "app" "tablet" written passed passed "u" command written_passes
      (λ k. refl) passed_reads
