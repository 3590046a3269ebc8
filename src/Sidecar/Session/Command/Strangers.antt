-- ===== src/Sidecar/Session/Command/Strangers.antt =====
-- What a command does whose sender may not control the sidecar.
use your_connector.Common.{
  ◌≡◌, refl, ◌∙◌, ap, ◌&&◌, not, Bool, false, none, some, List, String, Result, ok, err, ◌==◌,
  string_eq, arith,
}
use your_connector.Common.Exec.{pure, continue}
use your_connector.Common.HashSet
use your_connector.Common.Json
use your_connector.Common.Json.{object, Fields}
use your_connector.Common.Text.{trim, is_empty}
use your_connector.Common.Text.Trimmed.{trim-trim}
use your_connector.Relay.Ws.Envelope.{Fresh, sanitize_fields}
use your_connector.Sidecar.Control.{SidecarCommandEnvelope}
use your_connector.Sidecar.Control.Parse.{command_envelope}
use your_connector.Sidecar.Control.Source.{relayed_source}
use your_connector.Sidecar.Session.Command.Context.{
  default_outcome, Host, Session, send, on_controllers,
}
use your_connector.Sidecar.Session.Command.Handle.{
  authorized_command, run_permitted, rebinding, handle_sidecar_command,
}
use your_connector.Sidecar.Session.Command.Refusal.{
  trace_id_of, permission_of, permission, refusal, refuse_command,
}
use your_connector.Sidecar.Session.Tool.{ToolRuntimePayload}
use your_connector.Sidecar.Session.Transport.{Wire, json, send_event}
use your_connector.Sidecar.Stores.Controllers.{is_none_bound}
use your_connector.Sidecar.Stores.Controllers.Bound.{Attempt, attempt, is_allowed, attempt_bound}

-- whether the sender is the app on a bound device
abbrev pub may_command : SidecarCommandEnvelope → Session → Bool
may_command e s =
    e.source_client_type == "app"
    && not (is_empty (trim e.source_device_id))
    && HashSet.contains (trim e.source_device_id) s.controllers.ids

abbrev pub attempt_of : Host → SidecarCommandEnvelope → Attempt
attempt_of host e = record {
  written = host.controllers_written;
  client_type = e.source_client_type;
  device_id = e.source_device_id;
  allow_first_bind = host.allow_first_controller_bind;
}

abbrev pub reason_of : Host → SidecarCommandEnvelope → Session → String
reason_of host e s = (permission_of (attempt (attempt_of host e) s.controllers).0).1

not_permitted :
    (r : Result String (Bool × String)) → is_allowed r ≡ false → (permission_of r).0 ≡ false
not_permitted (ok (allowed, reason)) forbidden = forbidden
not_permitted (err e) forbidden = refl

refuse_command_kept :
    (host : Host) (e : SidecarCommandEnvelope) (reason : String) (s : Session)
    → (refuse_command host e reason s).1
      ≡ record s { wire = (refuse_command host e reason s).1.wire }
unfolding refuse_command send
refuse_command_kept host e reason s = by_outcome (
    send_event host.message_written host.system_id (refusal e.command reason).0 (trace_id_of e)
      (json (refusal e.command reason).1) s.wire)
  where
    by_outcome :
        (p : Result String (Unit {0}) × Wire)
        → (continue p.0 (λ u. pure default_outcome) (record s { wire = p.1 })).1 ≡ record s {
          wire = (continue p.0 (λ u. pure default_outcome) (record s { wire = p.1 })).1.wire;
        }
    by_outcome (ok u, w) = refl
    by_outcome (err e, w) = refl

abbrev refused_for : Session → String → Bool → Result String (Bool × String) × Session
refused_for s reason b = (ok (b, reason), s)

permission_stranger :
    (host : Host) (e : SidecarCommandEnvelope) (s : Session)
    → is_none_bound s.controllers.ids ≡ false
    → may_command e s ≡ false
    → permission host e s ≡ (ok (false, reason_of host e s), s)
unfolding permission on_controllers
permission_stranger host e s bound stranger =
    let may = attempt_bound (attempt_of host e) s.controllers bound in
    let r = (attempt (attempt_of host e) s.controllers).0 in
    let forbidden = not_permitted r (may.1 ∙ stranger) in
    rw may.0 (ap (refused_for s (permission_of r).1) forbidden)

pub refused :
    (host : Host) (tools : List ToolRuntimePayload) (e : SidecarCommandEnvelope) (s : Session)
    → is_none_bound s.controllers.ids ≡ false
    → may_command e s ≡ false
    → rebinding e.command ≡ none
    → handle_sidecar_command host tools e s ≡ refuse_command host e (reason_of host e s) s
unfolding handle_sidecar_command authorized_command run_permitted
refused host tools e s bound stranger no_rebind =
    rw
      (
        handle_sidecar_command,
        no_rebind,
        authorized_command,
        permission_stranger host e s bound stranger,
      )
      refl

pub relayed_stranger_refused :
    (fresh : Fresh) (system_id client_type device_id : String) (sent out read : Fields)
    (uuid : String) (e : SidecarCommandEnvelope) (host : Host) (tools : List ToolRuntimePayload)
    (s : Session)
    → sanitize_fields fresh system_id client_type device_id sent ≡ ok out
    → ((k : String) → Json.get k read ≡ Json.get k out)
    → command_envelope uuid (object read) ≡ some e
    → is_none_bound s.controllers.ids ≡ false
    → trim client_type == "app" && HashSet.contains (trim device_id) s.controllers.ids ≡ false
    → rebinding e.command ≡ none
    → (handle_sidecar_command host tools e s).1
      ≡ record s { wire = (handle_sidecar_command host tools e s).1.wire }
relayed_stranger_refused fresh system_id client_type device_id sent out read uuid e host tools s
      passed same parsed bound stranger no_rebind =
    let (client, device) =
      relayed_source fresh system_id client_type device_id sent out read uuid e passed same
        parsed in
    let id : trim e.source_device_id ≡ trim device_id = ap trim device ∙ trim-trim device_id in
    rw (refused host tools e s bound (ground (arith, stranger, client, id)) no_rebind)
      (refuse_command_kept host e (reason_of host e s) s)
