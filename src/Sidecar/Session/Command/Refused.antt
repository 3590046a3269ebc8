-- ===== src/Sidecar/Session/Command/Refused.antt =====
-- What a sender who may not command the sidecar is told.
use your_connector.Common.{
  ℕ, ◌≡◌, refl, ◌∙◌, ap, ◌&&◌, not, false, Option, none, some, List, ◌∷◌, String, Result, ok, err,
  ◌==◌, string_eq, arith, if◌then◌else◌, Bool-cases, inl, inr,
}
use your_connector.Common.HashSet
use your_connector.Common.Json
use your_connector.Common.Json.{Value, text, bool, unsigned, value_get}
use your_connector.Common.Text.{trim, is_empty}
use your_connector.Sidecar.Control.{
  ChatTarget, ReportTarget, SidecarCommand, refresh, connect_tool, disconnect_tool,
  reset_tool_whitelist, refresh_tool_details, control_tool_process, stop, restart,
  rebind_controller, tool_chat_request, tool_chat_cancel, tool_report_fetch_request,
  tool_media_stage_request, tool_launch_request, SidecarCommandEnvelope, command_feedback_parts,
  command_feedback_event,
}
use your_connector.Sidecar.Session.Command.Context.{
  SidecarCommandOutcome, default_outcome, Host, Session, send,
}
use your_connector.Sidecar.Session.Command.Handle.{rebinding, handle_sidecar_command}
use your_connector.Sidecar.Session.Command.Refusal.{
  trace_id_of, permission_of, refusal, refuse_command,
}
use your_connector.Sidecar.Session.Command.Strangers.{may_command, reason_of, attempt_of, refused}
use your_connector.Sidecar.Session.Tool.{ToolRuntimePayload}
use your_connector.Sidecar.Session.Transport.{Event, Wire, trace_of, next, json, send_event}
use your_connector.Sidecar.Stores.Controllers.{
  ControllerDevicesStore, is_none_bound, authorize_or_bind,
}
use your_connector.Sidecar.Stores.Controllers.Bound.{Attempt, attempt}

-- whether the payload of an event holds this value under this key
abbrev Says : String → Value → Event → Type 0
Says key value event = value_get key event.payload ≡ some value

abbrev tool_or_blank : Option String → String
tool_or_blank none = ""
tool_or_blank (some id) = id

abbrev IsChatRefusal : ChatTarget → String → Event → Type 0
IsChatRefusal t reason event =
    (event.event_type ≡ "tool_chat_finished")
    × Says "toolId" (text t.tool_id) event
    × Says "conversationKey" (text t.conversation_key) event
    × Says "requestId" (text t.request_id) event
    × Says "queueItemId" (text t.queue_item_id) event
    × Says "status" (text "failed") event
    × Says "reason" (text reason) event

abbrev IsReportRefusal : ReportTarget → String → Event → Type 0
IsReportRefusal t reason event =
    (event.event_type ≡ "tool_report_fetch_finished")
    × Says "toolId" (text t.tool_id) event
    × Says "conversationKey" (text t.conversation_key) event
    × Says "requestId" (text t.request_id) event
    × Says "filePath" (text t.file_path) event
    × Says "status" (text "failed") event
    × Says "reason" (text reason) event
    × Says "bytesSent" (unsigned 0) event

abbrev IsFeedback : String → String → String → String → Event → Type 0
IsFeedback event_type action tool_id reason event =
    (event.event_type ≡ event_type)
    × Says "action" (text action) event
    × Says "toolId" (text tool_id) event
    × Says "ok" (bool false) event
    × Says "changed" (bool false) event
    × Says "reason" (text reason) event

-- what the app must find in an event to tell which of its requests was refused, and why
abbrev pub IsRefusal : SidecarCommand → String → Event → Type 0
IsRefusal (tool_chat_request t message content) reason event = IsChatRefusal t reason event
IsRefusal (tool_chat_cancel t) reason event = IsChatRefusal t reason event
IsRefusal (tool_report_fetch_request t) reason event = IsReportRefusal t reason event
IsRefusal refresh reason event = IsFeedback "tool_whitelist_updated" "refresh" "" reason event
IsRefusal (connect_tool id) reason event =
    IsFeedback "tool_whitelist_updated" "connect" id reason event
IsRefusal (disconnect_tool id) reason event =
    IsFeedback "tool_whitelist_updated" "disconnect" id reason event
IsRefusal reset_tool_whitelist reason event =
    IsFeedback "tool_whitelist_updated" "reset" "" reason event
IsRefusal (refresh_tool_details d) reason event =
    IsFeedback "tool_whitelist_updated" "refresh-details" (tool_or_blank d.tool_id) reason event
IsRefusal (control_tool_process id stop) reason event =
    IsFeedback "tool_process_control_updated" "stop" id reason event
IsRefusal (control_tool_process id restart) reason event =
    IsFeedback "tool_process_control_updated" "restart" id reason event
IsRefusal (rebind_controller id) reason event =
    IsFeedback "tool_whitelist_updated" "rebind-controller" id reason event
IsRefusal (tool_media_stage_request m) reason event =
    IsFeedback "tool_media_stage_failed" "media-stage" m.tool_id reason event
IsRefusal (tool_launch_request l) reason event =
    IsFeedback "tool_launch_failed" "launch" l.tool_name reason event

-- the reason, where some device is bound and the sender is not the app on it
abbrev pub why : String → String → String
why source_client_type source_device_id =
    if source_client_type == "app"
    then (if is_empty (trim source_device_id) then "缺少来源设备标识。" else "该设备未被授权控制当前 sidecar。")
    else "仅接受 app 客户端控制命令。"

abbrev refusal_event : SidecarCommand → String → String → ℕ → Option String → Event
refusal_event command reason system_id seq trace_id = record {
  event_type = (refusal command reason).0;
  system_id = system_id;
  seq = seq;
  trace_id = trace_id;
  payload = json (refusal command reason).1;
}

abbrev event_of : Host → SidecarCommandEnvelope → String → Wire → Event
event_of host e reason w =
    refusal_event e.command reason host.system_id (next w.seq) (trace_of (trace_id_of e))

refusal_event-IsRefusal :
    (command : SidecarCommand) (reason system_id : String) (seq : ℕ) (trace_id : Option String)
    → IsRefusal command reason (refusal_event command reason system_id seq trace_id)
unfolding refusal command_feedback_parts command_feedback_event Json.get string_eq
refusal_event-IsRefusal (tool_chat_request t message content) reason system_id seq trace_id =
    (refl, refl, refl, refl, refl, refl, refl)
refusal_event-IsRefusal (tool_chat_cancel t) reason system_id seq trace_id =
    (refl, refl, refl, refl, refl, refl, refl)
refusal_event-IsRefusal (tool_report_fetch_request t) reason system_id seq trace_id =
    (refl, refl, refl, refl, refl, refl, refl, refl)
refusal_event-IsRefusal refresh reason system_id seq trace_id = (refl, refl, refl, refl, refl, refl)
refusal_event-IsRefusal (connect_tool id) reason system_id seq trace_id =
    (refl, refl, refl, refl, refl, refl)
refusal_event-IsRefusal (disconnect_tool id) reason system_id seq trace_id =
    (refl, refl, refl, refl, refl, refl)
refusal_event-IsRefusal reset_tool_whitelist reason system_id seq trace_id =
    (refl, refl, refl, refl, refl, refl)
refusal_event-IsRefusal (refresh_tool_details d) reason system_id seq trace_id =
    (refl, refl, refl, refl, refl, refl)
refusal_event-IsRefusal (control_tool_process id stop) reason system_id seq trace_id =
    (refl, refl, refl, refl, refl, refl)
refusal_event-IsRefusal (control_tool_process id restart) reason system_id seq trace_id =
    (refl, refl, refl, refl, refl, refl)
refusal_event-IsRefusal (rebind_controller id) reason system_id seq trace_id =
    (refl, refl, refl, refl, refl, refl)
refusal_event-IsRefusal (tool_media_stage_request m) reason system_id seq trace_id =
    (refl, refl, refl, refl, refl, refl)
refusal_event-IsRefusal (tool_launch_request l) reason system_id seq trace_id =
    (refl, refl, refl, refl, refl, refl)

-- The event is sent, or the session ends with the error of the writing, its number used up.
abbrev pub answered :
    Result String (Unit {0}) → Event → Session → Result String SidecarCommandOutcome × Session
answered (ok u) event s =
    (ok default_outcome, record s { wire = record { seq = event.seq; sent = event ∷ s.wire.sent } })
answered (err e) event s = (err e, record s { wire = record s.wire { seq = event.seq } })

refuse_command-answered :
    (host : Host) (e : SidecarCommandEnvelope) (reason : String) (s : Session)
    → refuse_command host e reason s
      ≡ answered
          (host.message_written (event_of host e reason s.wire))
          (event_of host e reason s.wire)
          s
unfolding refuse_command send send_event
refuse_command-answered host e reason s =
    by_outcome (host.message_written (event_of host e reason s.wire)) refl
  where
    by_outcome :
        (w : Result String (Unit {0}))
        → host.message_written (event_of host e reason s.wire) ≡ w
        → refuse_command host e reason s ≡ answered w (event_of host e reason s.wire) s
    by_outcome (ok u) written = rw (refuse_command, send, send_event, written) refl
    by_outcome (err m) written = rw (refuse_command, send, send_event, written) refl

denial :
    (a : Attempt) (s : ControllerDevicesStore)
    → is_none_bound s.ids ≡ false
    → (a.client_type == "app"
        && not (is_empty (trim a.device_id))
        && HashSet.contains (trim a.device_id) s.ids)
      ≡ false
    → (attempt a s).0 ≡ ok (false, why a.client_type a.device_id)
unfolding authorize_or_bind
denial a s bound stranger = elim (Bool-cases (a.client_type == "app")) [
  | inr other ↦ rw other refl
  | inl app ↦ elim (Bool-cases (is_empty (trim a.device_id))) [
    | inl blank ↦ rw (app, blank) refl
    | inr named ↦
        let unknown : HashSet.contains (trim a.device_id) s.ids ≡ false =
          ground (arith, stranger, app, named) in
        rw (app, named, bound, unknown) refl
  ]
]

reason_of-why :
    (host : Host) (e : SidecarCommandEnvelope) (s : Session)
    → is_none_bound s.controllers.ids ≡ false
    → may_command e s ≡ false
    → reason_of host e s ≡ why e.source_client_type e.source_device_id
reason_of-why host e s bound stranger =
    ap (λ r. (permission_of r).1) (denial (attempt_of host e) s.controllers bound stranger)

trace_lem :
    (e : SidecarCommandEnvelope)
    → trace_of (trace_id_of e)
      ≡ (if is_empty (trim e.trace_id) then none else some (trim e.trace_id))
trace_lem e = elim (Bool-cases (is_empty (trim e.trace_id))) [
  | inl blank ↦ rw blank refl
  | inr named ↦ rw (named, named) refl
]

pub stranger_refused :
    (host : Host) (tools : List ToolRuntimePayload) (e : SidecarCommandEnvelope) (s : Session)
    → is_none_bound s.controllers.ids ≡ false
    → may_command e s ≡ false
    → rebinding e.command ≡ none
    → (event : Event) × IsRefusal e.command (why e.source_client_type e.source_device_id) event
      × (event.system_id ≡ host.system_id)
      × (event.seq ≡ next s.wire.seq)
      × (event.trace_id ≡ (if is_empty (trim e.trace_id) then none else some (trim e.trace_id)))
      × (handle_sidecar_command host tools e s ≡ answered (host.message_written event) event s)
stranger_refused host tools e s bound stranger no_rebind =
    let because = reason_of-why host e s bound stranger in
    (
      event_of host e (why e.source_client_type e.source_device_id) s.wire,
      refusal_event-IsRefusal e.command (why e.source_client_type e.source_device_id) host.system_id
          (next s.wire.seq) (trace_of (trace_id_of e)),
      refl,
      refl,
      trace_lem e,
      refused host tools e s bound stranger no_rebind
          ∙ rw because
              (refuse_command-answered host e (why e.source_client_type e.source_device_id) s),
    )
