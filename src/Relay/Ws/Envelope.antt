-- ===== src/Relay/Ws/Envelope.antt =====
-- services/relay/src/ws/envelope.rs: what the relay makes of a message of a client. The random ids
-- and the clock's text are arguments.
pub mod Stamped
use your_connector.Common.{
  Bool, true, false, not, Option, none, some, is_some, String, ◌<>◌, Result, ok, err, ◌>>=◌, ◌>>◌,
  refuse, or_fail, map_err, ◌==◌, string_eq, if◌then◌else◌,
}
use your_connector.Common.Json
use your_connector.Common.Json.{
  Value, text, object, unsigned, Fields, end, as_object, value_get, then_str, trimmed_text,
  or_blank, Serde,
}
use your_connector.Common.Text.{is_empty}

pub record Fresh : Type 0 where
  pub event_uuid : String
  pub trace_uuid : String
  pub now_text : String

-- `obj.insert(key, default)` if the field is no text or a blank one
unfoldable pub fill_blank : String → String → Fields → Fields
fill_blank key default fields =
    if is_empty (trimmed_text (Json.get key fields))
    then Json.insert key (text default) fields
    else fields

unfoldable pub fill_missing : String → Value → Fields → Fields
fill_missing key default fields =
    if is_some (Json.get key fields) then fields else Json.insert key default fields

-- `Some(sid)` that differs
unfoldable pub is_mismatch : String → Option String → Bool
is_mismatch system_id none = false
is_mismatch system_id (some sid) = not (sid == system_id)

-- the fields that the relay writes whatever the client sent
unfoldable pub stamp : String → String → String → Fields → Fields
stamp system_id source_client_type source_device_id fields =
    Json.insert "peerId" (text source_device_id) (
      Json.insert "sourceDeviceId" (text source_device_id) (
        Json.insert "sourceClientType" (text source_client_type)
          (Json.insert "systemId" (text system_id) fields)))

-- `!matches!(obj.get("payload"), Some(v) if v.is_object())`
abbrev is_object : Option Value → Bool
is_object (some (object fields)) = true
is_object _ = false

unfoldable pub fill_payload : Fields → Fields
fill_payload fields =
    if is_object (Json.get "payload" fields)
    then fields
    else Json.insert "payload" (object end) fields

-- from the object that was read to the one that is written
unfoldable pub sanitize_fields : Fresh → String → String → String → Fields → Result String Fields
sanitize_fields fresh system_id source_client_type source_device_id fields = do
  let named =
      fill_blank "traceId" ("trc_" <> fresh.trace_uuid)
        (fill_blank "eventId" ("evt_" <> fresh.event_uuid) (fill_missing "v" (unsigned 1) fields))
  refuse (is_empty (trimmed_text (Json.get "type" named))) "missing type"
  refuse (is_mismatch system_id (then_str (Json.get "systemId" named))) "systemId mismatch"
  let stamped = stamp system_id source_client_type source_device_id named
  ok (fill_payload (fill_blank "ts" fresh.now_text stamped))

unfoldable pub sanitize_envelope :
    Serde → Fresh → String → String → String → String → Result String String
sanitize_envelope c fresh raw system_id source_client_type source_device_id = do
  env ← c.from_str raw
  fields ← or_fail (as_object env) "envelope must be an object"
  sanitized ← sanitize_fields fresh system_id source_client_type source_device_id fields
  c.to_string (object sanitized)

pub record EnvelopeSummary : Type 0 where
  pub event_type : String
  pub event_id : String
  pub trace_id : String
  pub tool_id : String

abbrev object_or_empty : Option Value → Fields
object_or_empty (some (object fields)) = fields
object_or_empty _ = end

abbrev blank_summary : EnvelopeSummary
blank_summary = record { event_type = ""; event_id = ""; trace_id = ""; tool_id = "" }

-- `and_then(Value::as_str).unwrap_or_default()`
abbrev text_or_blank : Option Value → String
text_or_blank v = or_blank (then_str v)

abbrev summary_of : Value → EnvelopeSummary
summary_of value = record {
  event_type = text_or_blank (value_get "type" value);
  event_id = text_or_blank (value_get "eventId" value);
  trace_id = text_or_blank (value_get "traceId" value);
  tool_id = text_or_blank (Json.get "toolId" (object_or_empty (value_get "payload" value)));
}

unfoldable pub summarize_envelope : Serde → String → EnvelopeSummary
summarize_envelope c raw = elim (c.from_str raw) [
  | ok value ↦ summary_of value
  | err e ↦ blank_summary
]
