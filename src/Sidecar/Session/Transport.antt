-- ===== src/Sidecar/Session/Transport.antt =====
-- services/sidecar/src/session/transport.rs: `send_event`. The id and the time of an event, which
-- are fresh, are left out.
use your_connector.Common.{
  ℕ, ◌+◌, ◌%◌, ◌^◌, Option, none, some, List, [], ◌∷◌, String, Result, ok, err, if◌then◌else◌,
}
use your_connector.Common.Exec.{Exec}
use your_connector.Common.Json.{Value, object, Fields, end, field}
use your_connector.Common.Text.{trim, is_empty}

pub record Event : Type 0 where
  pub event_type : String
  pub system_id : String
  pub seq : ℕ
  pub trace_id : Option String
  pub payload : Value

-- `seq` of the session, and what it has sent, the last first
pub record Wire : Type 0 where
  pub seq : ℕ
  pub sent : List Event

-- a trace id is trimmed, and one left blank is dropped
abbrev pub trace_of : Option String → Option String
trace_of none = none
trace_of (some id) = if is_empty (trim id) then none else some (trim id)

abbrev pub next : ℕ → ℕ
next seq = (seq + 1) % 2 ^ 64

-- `json!` of an object
abbrev fields_of : List (String × Value) → Fields
fields_of [] = end
fields_of ((k, v) ∷ more) = field k v (fields_of more)

abbrev pub json : List (String × Value) → Value
json list = object (fields_of list)

-- `written` is how the writing of the message ends.
unfoldable pub send_event :
    (Event → Result String (Unit {0}))
    → String
    → String
    → Option String
    → Value
    → Exec Wire String (Unit {0})
send_event written system_id event_type trace_id payload s =
    let seq = next s.seq in
    let event : Event = record {
      event_type = event_type;
      system_id = system_id;
      seq = seq;
      trace_id = trace_of trace_id;
      payload = payload;
    } in
    elim (written event) [
      | ok u ↦ (ok u, record { seq = seq; sent = event ∷ s.sent })
      | err e ↦ (err e, record s { seq = seq })
    ]
