-- ===== src/Sidecar/Session/Command/Keeping.antt =====
-- A property of the session that the calls on its parts keep is kept by every command.
use your_connector.Common.{
  ℕ, Bool, true, false, Option, none, some, List, String, Result, ok, err, ◌==◌, string_eq,
  Bool-cases, Option-cases, inl, inr,
}
use your_connector.Common.Exec.{pure, Keeps, Keeps-pure, Keeps-bind, ◌>>=◌, ◌>>◌}
use your_connector.Common.Json.{Value}
use your_connector.Common.Text.{trim, is_empty}
use your_connector.Sidecar.Control
use your_connector.Sidecar.Control.{
  SidecarCommand, SidecarCommandEnvelope, ChatTarget, ReportTarget, MediaStage, Launch,
  ToolProcessAction, ChatContentPart,
}
use your_connector.Sidecar.Session.Chats
use your_connector.Sidecar.Session.Chats.{
  ChatRequestInput, StartChatOutcome, CancelChatOutcome, accepted, not_found, cancel_request,
}
use your_connector.Sidecar.Session.Command.Context.{
  Host, Session, Handling, send, on_whitelist, on_controllers, on_chats, on_reports, StagedMedia,
  StageError,
}
use your_connector.Sidecar.Session.Command.Handle.{
  run_command, run_permitted, authorized_command, rebinding, handle_sidecar_command,
}
use your_connector.Sidecar.Session.Command.Media
use your_connector.Sidecar.Session.Command.Media.{media_staged, launch_spawned, launch_prepared}
use your_connector.Sidecar.Session.Command.Refusal.{
  permission, refuse_command, rebind_controller, rebind_answer, trace_id_of,
}
use your_connector.Sidecar.Session.Command.Requests
use your_connector.Sidecar.Session.Command.Requests.{
  chat_started, start_chat, chat_cancelled, report_started, start_report,
}
use your_connector.Sidecar.Session.Command.Tools
use your_connector.Sidecar.Session.Command.Tools.{connect_answer}
use your_connector.Sidecar.Session.Launch.{PreparedLaunch, prepare_launch_request}
use your_connector.Sidecar.Session.Reports
use your_connector.Sidecar.Session.Reports.{StartReportOutcome}
use your_connector.Sidecar.Session.Tool.{ToolRuntimePayload, find_tool, is_fallback_tool}
use your_connector.Sidecar.Session.Transport.{Wire}
use your_connector.Sidecar.Stores.Controllers.{authorize_or_bind, rebind}
use your_connector.Sidecar.Stores.Whitelist
use your_connector.Sidecar.Stores.Whitelist.{clear}

pub record IsKeptByCalls (host : Host) (P : Session → Type 0) : Type 0 where
  pub wire : (s : Session) (w : Wire) → P s → P (record s { wire = w })
  pub add :
      (tool_id : String) → Keeps P (on_whitelist (Whitelist.add host.whitelist_written tool_id))
  pub remove :
      (tool_id : String) → Keeps P (on_whitelist (Whitelist.remove host.whitelist_written tool_id))
  pub clear_all : Keeps P (on_whitelist (clear host.whitelist_written))
  pub bind :
      (client_type device_id : String)
      → Keeps P (
          on_controllers (
            authorize_or_bind host.controllers_written client_type device_id
              host.allow_first_controller_bind))
  pub bind_again :
      (device_id : String) → Keeps P (on_controllers (rebind host.controllers_written device_id))
  pub start_chat :
      (request : ChatRequestInput) (tool : ToolRuntimePayload) (trace_id : Option String)
      → Keeps P (on_chats (Chats.start_request request tool trace_id))
  pub cancel_chat : (cancel : ChatTarget) → Keeps P (on_chats (cancel_request cancel))
  pub start_report :
      (request : ReportTarget) (tool : ToolRuntimePayload) (trace_id : Option String)
      → Keeps P (on_reports (Reports.start_request request tool trace_id))

module _ (host : Host) (P : Session → Type 0) (calls : IsKeptByCalls host P) where
  send-Keeps :
      (trace_id : Option String) (event_type : String) (list : List (String × Value))
      → Keeps P (send host trace_id event_type list)
  unfolding send
  send-Keeps trace_id event_type list = record { at = λ before holds. calls.wire before _ holds }

  -- an answer, and the outcome
  answer-Keeps :
      {A : Type 0} (trace_id : Option String) (event_type : String) (list : List (String × Value))
      (a : A)
      → Keeps P (send host trace_id event_type list >> pure a)
  answer-Keeps trace_id event_type list a =
      Keeps-bind _ _ (send-Keeps trace_id event_type list) (λ u. Keeps-pure a)

  -- a call on a part, and an answer that tells how it ended
  call-Keeps :
      {A B : Type 0} (trace_id : Option String) (event_type : String) (call : Handling A)
      (list : A → List (String × Value)) (b : B)
      → Keeps P call
      → Keeps P (call >>= λ a. send host trace_id event_type (list a) >> pure b)
  call-Keeps trace_id event_type call list b kept =
      Keeps-bind _ _ kept (λ a. answer-Keeps trace_id event_type (list a) b)

  connect_answer-Keeps :
      (tool_id : String) (candidate : Option ToolRuntimePayload)
      → Keeps P (connect_answer host tool_id candidate)
  connect_answer-Keeps tool_id none = Keeps-pure _
  connect_answer-Keeps tool_id (some tool) = elim (Bool-cases (is_fallback_tool tool)) [
    | inl fallback ↦ rw fallback (Keeps-pure _)
    | inr real ↦ rw real (Keeps-bind _ _ (calls.add tool_id) (λ changed. Keeps-pure _))
  ]

  connect_tool-Keeps :
      (trace_id : Option String) (tools : List ToolRuntimePayload) (tool_id : String)
      → Keeps P (Tools.connect_tool host trace_id tools tool_id)
  unfolding Tools.connect_tool
  connect_tool-Keeps trace_id tools tool_id =
      call-Keeps trace_id _ _ _ _ (connect_answer-Keeps tool_id (find_tool tool_id tools))

  disconnect_tool-Keeps :
      (trace_id : Option String) (tool_id : String)
      → Keeps P (Tools.disconnect_tool host trace_id tool_id)
  unfolding Tools.disconnect_tool
  disconnect_tool-Keeps trace_id tool_id = call-Keeps trace_id _ _ _ _ (calls.remove tool_id)

  reset_tool_whitelist-Keeps :
      (trace_id : Option String) → Keeps P (Tools.reset_tool_whitelist host trace_id)
  unfolding Tools.reset_tool_whitelist
  reset_tool_whitelist-Keeps trace_id = call-Keeps trace_id _ _ _ _ calls.clear_all

  control_tool_process-Keeps :
      (trace_id : Option String) (tools : List ToolRuntimePayload) (tool_id : String)
      (action : ToolProcessAction)
      → Keeps P (Tools.control_tool_process host trace_id tools tool_id action)
  unfolding Tools.control_tool_process
  control_tool_process-Keeps trace_id tools tool_id action = answer-Keeps trace_id _ _ _

  chat_started-Keeps :
      (trace_id : Option String) (t : ChatTarget) (start : StartChatOutcome)
      → Keeps P (chat_started host trace_id t start)
  chat_started-Keeps trace_id t Chats.started = Keeps-pure _
  chat_started-Keeps trace_id t (Chats.busy reason) = answer-Keeps trace_id _ _ _

  start_chat-Keeps :
      (trace_id : Option String) (t : ChatTarget) (message : String)
      (content : List ChatContentPart) (tool : Option ToolRuntimePayload)
      → Keeps P (start_chat host trace_id t message content tool)
  start_chat-Keeps trace_id t message content none = answer-Keeps trace_id _ _ _
  start_chat-Keeps trace_id t message content (some tool) =
      Keeps-bind _ _ (calls.start_chat _ tool trace_id) (chat_started-Keeps trace_id t)

  chat_cancelled-Keeps :
      (trace_id : Option String) (t : ChatTarget) (cancelled : CancelChatOutcome)
      → Keeps P (chat_cancelled host trace_id t cancelled)
  chat_cancelled-Keeps trace_id t accepted = Keeps-pure _
  chat_cancelled-Keeps trace_id t not_found = answer-Keeps trace_id _ _ _

  report_started-Keeps :
      (trace_id : Option String) (t : ReportTarget) (start : StartReportOutcome)
      → Keeps P (report_started host trace_id t start)
  report_started-Keeps trace_id t Reports.started = Keeps-pure _
  report_started-Keeps trace_id t (Reports.busy reason) = answer-Keeps trace_id _ _ _

  start_report-Keeps :
      (trace_id : Option String) (t : ReportTarget) (tool : Option ToolRuntimePayload)
      → Keeps P (start_report host trace_id t tool)
  start_report-Keeps trace_id t none = answer-Keeps trace_id _ _ _
  start_report-Keeps trace_id t (some tool) =
      Keeps-bind _ _ (calls.start_report t tool trace_id) (report_started-Keeps trace_id t)

  media_staged-Keeps :
      (trace_id : Option String) (m : MediaStage) (staged : Result StageError StagedMedia)
      → Keeps P (media_staged host trace_id m staged)
  media_staged-Keeps trace_id m (ok staged) = send-Keeps trace_id _ _
  media_staged-Keeps trace_id m (err e) = send-Keeps trace_id _ _

  tool_media_stage_request-Keeps :
      (trace_id : Option String) (tools : List ToolRuntimePayload) (m : MediaStage)
      → Keeps P (Media.tool_media_stage_request host trace_id tools m)
  unfolding Media.tool_media_stage_request
  tool_media_stage_request-Keeps trace_id tools m =
      Keeps-bind _ _ (send-Keeps trace_id _ _)
        (λ u. Keeps-bind _ _ (media_staged-Keeps trace_id m _) (λ v. Keeps-pure _))

  launch_spawned-Keeps :
      (trace_id : Option String) (l : Launch) (spawned : Result String (Option ℕ))
      → Keeps P (launch_spawned host trace_id l spawned)
  launch_spawned-Keeps trace_id l (ok pid) = answer-Keeps trace_id _ _ _
  launch_spawned-Keeps trace_id l (err reason) = answer-Keeps trace_id _ _ _

  launch_prepared-Keeps :
      (trace_id : Option String) (l : Launch) (prepared : Result String PreparedLaunch)
      → Keeps P (launch_prepared host trace_id l prepared)
  launch_prepared-Keeps trace_id l (ok prepared) =
      Keeps-bind _ _ (send-Keeps trace_id _ _) (λ u. launch_spawned-Keeps trace_id l _)
  launch_prepared-Keeps trace_id l (err reason) = answer-Keeps trace_id _ _ _

  run_command-Keeps :
      (tools : List ToolRuntimePayload) (trace_id : Option String) (command : SidecarCommand)
      → Keeps P (run_command host tools trace_id command)
  unfolding run_command Requests.tool_chat_request Requests.tool_chat_cancel
      Requests.tool_report_fetch_request Media.tool_launch_request
  run_command-Keeps tools trace_id Control.refresh = Keeps-pure _
  run_command-Keeps tools trace_id (Control.connect_tool tool_id) =
      connect_tool-Keeps trace_id tools tool_id
  run_command-Keeps tools trace_id (Control.disconnect_tool tool_id) =
      disconnect_tool-Keeps trace_id tool_id
  run_command-Keeps tools trace_id Control.reset_tool_whitelist =
      reset_tool_whitelist-Keeps trace_id
  run_command-Keeps tools trace_id (Control.refresh_tool_details d) = Keeps-pure _
  run_command-Keeps tools trace_id (Control.control_tool_process tool_id action) =
      control_tool_process-Keeps trace_id tools tool_id action
  run_command-Keeps tools trace_id (Control.rebind_controller device_id) = Keeps-pure _
  run_command-Keeps tools trace_id (Control.tool_chat_request t message content) =
      start_chat-Keeps trace_id t message content (find_tool t.tool_id tools)
  run_command-Keeps tools trace_id (Control.tool_chat_cancel t) =
      Keeps-bind _ _ (calls.cancel_chat t) (chat_cancelled-Keeps trace_id t)
  run_command-Keeps tools trace_id (Control.tool_report_fetch_request t) =
      start_report-Keeps trace_id t (find_tool t.tool_id tools)
  run_command-Keeps tools trace_id (Control.tool_media_stage_request m) =
      tool_media_stage_request-Keeps trace_id tools m
  run_command-Keeps tools trace_id (Control.tool_launch_request l) =
      launch_prepared-Keeps trace_id l (prepare_launch_request host.std host.files l tools)

  refuse_command-Keeps :
      (e : SidecarCommandEnvelope) (reason : String) → Keeps P (refuse_command host e reason)
  unfolding refuse_command
  refuse_command-Keeps e reason = answer-Keeps (trace_id_of e) _ _ _

  run_permitted-Keeps :
      (tools : List ToolRuntimePayload) (e : SidecarCommandEnvelope) (permitted : Bool × String)
      → Keeps P (run_permitted host tools e permitted)
  unfolding run_permitted
  run_permitted-Keeps tools e (true, reason) = run_command-Keeps tools (trace_id_of e) e.command
  run_permitted-Keeps tools e (false, reason) = refuse_command-Keeps e reason

  authorized_command-Keeps :
      (tools : List ToolRuntimePayload) (e : SidecarCommandEnvelope)
      → Keeps P (authorized_command host tools e)
  unfolding authorized_command permission
  authorized_command-Keeps tools e =
      Keeps-bind _ _
        (Keeps-bind _ _ (calls.bind e.source_client_type e.source_device_id) (λ v. Keeps-pure _))
        (run_permitted-Keeps tools e)

  rebind_answer-Keeps :
      (e : SidecarCommandEnvelope) (device : String) → Keeps P (rebind_answer host e device)
  rebind_answer-Keeps e device = elim (Bool-cases (e.source_client_type == "app")) [
    | inl app ↦ elim (Bool-cases (is_empty device)) [
      | inl blank ↦ rw (app, blank) (Keeps-pure _)
      | inr named ↦
          rw (app, named) (Keeps-bind _ _ (calls.bind_again device) (λ changed. Keeps-pure _))
    ]
    | inr other ↦ rw other (Keeps-pure _)
  ]

  rebind_controller-Keeps :
      (e : SidecarCommandEnvelope) (device_id : String)
      → Keeps P (rebind_controller host e device_id)
  unfolding rebind_controller
  rebind_controller-Keeps e device_id =
      call-Keeps (trace_id_of e) _ _ _ _ (rebind_answer-Keeps e (trim device_id))

  pub handle_sidecar_command-Keeps :
      (tools : List ToolRuntimePayload) (e : SidecarCommandEnvelope)
      → Keeps P (handle_sidecar_command host tools e)
  unfolding handle_sidecar_command
  handle_sidecar_command-Keeps tools e = elim (Option-cases (rebinding e.command)) [
    | inl no_rebind ↦ rw (handle_sidecar_command, no_rebind) (authorized_command-Keeps tools e)
    | inr (device_id, binds) ↦
        rw (handle_sidecar_command, binds) (rebind_controller-Keeps e device_id)
  ]
