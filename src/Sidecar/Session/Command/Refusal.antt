-- ===== src/Sidecar/Session/Command/Refusal.antt =====
-- services/sidecar/src/session/loop/command.rs: `handle_sidecar_command` as far as who may command
use your_connector.Common.{
  not, Bool, false, Option, none, some, List, [], ◌∷◌, String, ◌<>◌, Result, ok, err, ◌==◌,
  string_eq, if◌then◌else◌,
}
use your_connector.Common.Exec.{pure, ◌>>=◌, ◌>>◌}
use your_connector.Common.Json.{Value, text, bool, unsigned, object, end}
use your_connector.Common.Text.{trim, is_empty}
use your_connector.Sidecar.Control.{
  ChatTarget, ReportTarget, SidecarCommand, tool_chat_request, tool_chat_cancel,
  tool_report_fetch_request, SidecarCommandEnvelope, command_feedback_parts, command_feedback_event,
}
use your_connector.Sidecar.Session.Command.Context.{
  SidecarCommandOutcome, default_outcome, Host, Handling, send, on_controllers, Answer, failed,
  answer_of,
}
use your_connector.Sidecar.Stores.Controllers.{rebind, authorize_or_bind}

-- the trace id of the answers
abbrev pub trace_id_of : SidecarCommandEnvelope → Option String
trace_id_of e = if is_empty (trim e.trace_id) then none else some e.trace_id

abbrev pub rebind_answer : Host → SidecarCommandEnvelope → String → Handling Answer
rebind_answer host e device =
    if not (e.source_client_type == "app")
    then pure (failed "仅接受 app 客户端发起控制端重绑。")
    else if is_empty device
    then pure (failed "缺少目标设备标识，无法重绑控制端。")
    else (do
      changed ← on_controllers (rebind host.controllers_written device)
      pure (answer_of "重绑控制设备失败: " changed))

unfoldable pub rebind_controller :
    Host → SidecarCommandEnvelope → String → Handling SidecarCommandOutcome
rebind_controller host e device_id = do
  let device = trim device_id
  answer ← rebind_answer host e device
  send host (trace_id_of e) "controller_bind_updated" (
      ("ok", bool answer.is_done)
      ∷ ("changed", bool answer.changed)
      ∷ ("deviceId", text device)
      ∷ ("reason", text answer.reason)
      ∷ [])
  pure default_outcome

abbrev pub permission_of : Result String (Bool × String) → Bool × String
permission_of (ok value) = value
permission_of (err e) = (false, "更新控制设备配置失败: " <> e)

-- whether the sender may command, and why not
unfoldable pub permission : Host → SidecarCommandEnvelope → Handling (Bool × String)
permission host e = do
  value ← on_controllers (
      authorize_or_bind host.controllers_written e.source_client_type e.source_device_id
        host.allow_first_controller_bind)
  pure (permission_of value)

abbrev pub chat_finished : ChatTarget → String → String → List (String × Value)
chat_finished t status reason =
    ("toolId", text t.tool_id)
    ∷ ("conversationKey", text t.conversation_key)
    ∷ ("requestId", text t.request_id)
    ∷ ("queueItemId", text t.queue_item_id)
    ∷ ("status", text status)
    ∷ ("text", text "")
    ∷ ("reason", text reason)
    ∷ ("meta", object end)
    ∷ []

abbrev pub report_finished : ReportTarget → String → String → List (String × Value)
report_finished t status reason =
    ("toolId", text t.tool_id)
    ∷ ("conversationKey", text t.conversation_key)
    ∷ ("requestId", text t.request_id)
    ∷ ("filePath", text t.file_path)
    ∷ ("status", text status)
    ∷ ("reason", text reason)
    ∷ ("bytesSent", unsigned 0)
    ∷ ("bytesTotal", unsigned 0)
    ∷ []

abbrev feedback : SidecarCommand → String → List (String × Value)
feedback command reason =
    ("action", text (command_feedback_parts command).0)
    ∷ ("toolId", text (command_feedback_parts command).1)
    ∷ ("ok", bool false)
    ∷ ("changed", bool false)
    ∷ ("reason", text reason)
    ∷ []

-- what a sender who may not command is answered: the event and its payload
unfoldable pub refusal : SidecarCommand → String → String × List (String × Value)
refusal (tool_chat_request t message content) reason =
    ("tool_chat_finished", chat_finished t "failed" reason)
refusal (tool_chat_cancel t) reason = ("tool_chat_finished", chat_finished t "failed" reason)
refusal (tool_report_fetch_request t) reason =
    ("tool_report_fetch_finished", report_finished t "failed" reason)
refusal command reason = (command_feedback_event command, feedback command reason)

unfoldable pub refuse_command :
    Host → SidecarCommandEnvelope → String → Handling SidecarCommandOutcome
refuse_command host e reason = do
  let (event_type, payload) = refusal e.command reason
  send host (trace_id_of e) event_type payload
  pure default_outcome
