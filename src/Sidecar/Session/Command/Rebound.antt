-- ===== src/Sidecar/Session/Command/Rebound.antt =====
-- What a command that binds another controller does.
use your_connector.Common.{
  ◌≡◌, ◌&&◌, refl, sym, subst, ◌∙◌, ap, true, false, Option, some, List, [], ◌∷◌, String, Result,
  ok, err, length, eqb, ◌==◌, ==_refl, string_eq, arith, Bool-cases, inl, inr,
}
use your_connector.Common.Exec.{pure, continue, ◌>>◌}
use your_connector.Common.HashSet
use your_connector.Common.Json.{Value}
use your_connector.Common.Text.{trim, is_empty}
use your_connector.Common.Text.Trimmed.{trim-trim}
use your_connector.Sidecar.Control.{SidecarCommandEnvelope}
use your_connector.Sidecar.Session.Command.Context.{
  Host, Session, send, on_controllers, default_outcome,
}
use your_connector.Sidecar.Session.Command.Handle.{rebinding, handle_sidecar_command}
use your_connector.Sidecar.Session.Command.Refusal.{rebind_controller, trace_id_of}
use your_connector.Sidecar.Session.Tool.{ToolRuntimePayload}
use your_connector.Sidecar.Session.Transport.{Wire, json, send_event}
use your_connector.Sidecar.Stores.Controllers.{ControllerDevicesStore, rebind}
use your_connector.Sidecar.Stores.Controllers.Bound.{put_and_save-ids}

-- The device is bound, and no other.
abbrev pub IsSole : String → ControllerDevicesStore → Type 0
IsSole device s = (length s.ids ≡ 1) × (HashSet.contains device s.ids ≡ true)

rebind-IsSole :
    (written : Result String (Unit {0})) (device_id : String) (s : ControllerDevicesStore)
    → is_empty (trim device_id) ≡ false
    → IsSole (trim device_id) (rebind written device_id s).1
unfolding rebind HashSet.insert HashSet.contains
rebind-IsSole written device_id s named =
    elim (Bool-cases (eqb (length s.ids) 1 && HashSet.contains (trim device_id) s.ids)) [
      | inl sole ↦ rw (rebind, named, sole) (ground (arith, sole), ground (arith, sole))
      | inr other ↦
          rw (rebind, named, other, put_and_save-ids written (trim device_id ∷ []) true s)
            (refl, rw (==_refl (trim device_id)) refl)
    ]

send-controllers :
    (host : Host) (trace_id : Option String) (event_type : String) (list : List (String × Value))
    (s : Session)
    → ((send host trace_id event_type list >> pure default_outcome) s).1.controllers ≡ s.controllers
unfolding send
send-controllers host trace_id event_type list s =
    by_outcome
      (send_event host.message_written host.system_id event_type trace_id (json list) s.wire)
  where
    by_outcome :
        (p : Result String (Unit {0}) × Wire)
        → (continue p.0 (λ u. pure default_outcome) (record s { wire = p.1 })).1.controllers
          ≡ s.controllers
    by_outcome (ok u, w) = refl
    by_outcome (err e, w) = refl

-- A rebinding from the app, on whatever device, to a device with a name leaves that device the only one
-- bound, also where the file or the answer could not be written.
pub rebound-IsSole :
    (host : Host) (tools : List ToolRuntimePayload) (e : SidecarCommandEnvelope)
    (device_id : String) (s : Session)
    → rebinding e.command ≡ some device_id
    → (e.source_client_type == "app") ≡ true
    → is_empty (trim device_id) ≡ false
    → IsSole (trim device_id) (handle_sidecar_command host tools e s).1.controllers
unfolding rebind_controller on_controllers handle_sidecar_command HashSet.contains
rebound-IsSole host tools e device_id s binds app named =
    let device = trim device_id in
    let after : ControllerDevicesStore = (rebind host.controllers_written device s.controllers).1 in
    let sole : IsSole device after =
      subst (λ d. IsSole d after) (trim-trim device_id)
        (rebind-IsSole host.controllers_written device s.controllers
          (ap is_empty (trim-trim device_id) ∙ named)) in
    rw (handle_sidecar_command, binds, rebind_controller, app, named)
      (subst (IsSole device)
        (sym (
          send-controllers host (trace_id_of e) "controller_bind_updated" _
            (record s { controllers = after })))
        sole)
