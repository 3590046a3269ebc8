-- ===== src/Sidecar/Session/Command/Requests.antt =====
-- services/sidecar/src/session/loop/command.rs: the commands that start or cancel work for a tool
use your_connector.Common.{Option, none, some, List, String}
use your_connector.Common.Exec.{pure, ◌>>=◌, ◌>>◌}
use your_connector.Sidecar.Control.{ChatTarget, ChatContentPart, ReportTarget}
use your_connector.Sidecar.Session.Chats
use your_connector.Sidecar.Session.Chats.{
  StartChatOutcome, CancelChatOutcome, accepted, not_found, cancel_request,
}
use your_connector.Sidecar.Session.Command.Context.{
  SidecarCommandOutcome, default_outcome, Host, Handling, send, on_chats, on_reports,
}
use your_connector.Sidecar.Session.Command.Refusal.{chat_finished, report_finished}
use your_connector.Sidecar.Session.Reports
use your_connector.Sidecar.Session.Reports.{StartReportOutcome}
use your_connector.Sidecar.Session.Tool.{ToolRuntimePayload, find_tool}

abbrev answer_chat :
    Host → Option String → ChatTarget → String → String → Handling SidecarCommandOutcome
answer_chat host trace_id t status reason = do
  send host trace_id "tool_chat_finished" (chat_finished t status reason)
  pure default_outcome

abbrev pub chat_started :
    Host → Option String → ChatTarget → StartChatOutcome → Handling SidecarCommandOutcome
chat_started host trace_id t Chats.started = pure default_outcome
chat_started host trace_id t (Chats.busy reason) = answer_chat host trace_id t "busy" reason

abbrev pub start_chat :
    Host
    → Option String
    → ChatTarget
    → String
    → List ChatContentPart
    → Option ToolRuntimePayload
    → Handling SidecarCommandOutcome
start_chat host trace_id t message content none =
    answer_chat host trace_id t "failed" "工具未在线或未接入，无法发起聊天。"
start_chat host trace_id t message content (some tool) = do
  start ← on_chats (
      Chats.start_request (record { target = t; message = message; content = content }) tool
        trace_id)
  chat_started host trace_id t start

unfoldable pub tool_chat_request :
    Host
    → Option String
    → List ToolRuntimePayload
    → ChatTarget
    → String
    → List ChatContentPart
    → Handling SidecarCommandOutcome
tool_chat_request host trace_id discovered_tools t message content =
    start_chat host trace_id t message content (find_tool t.tool_id discovered_tools)

abbrev pub chat_cancelled :
    Host → Option String → ChatTarget → CancelChatOutcome → Handling SidecarCommandOutcome
chat_cancelled host trace_id t accepted = pure default_outcome
chat_cancelled host trace_id t not_found = answer_chat host trace_id t "failed" "未找到可取消的运行中请求。"

unfoldable pub tool_chat_cancel : Host → Option String → ChatTarget → Handling SidecarCommandOutcome
tool_chat_cancel host trace_id t = do
  cancelled ← on_chats (cancel_request t)
  chat_cancelled host trace_id t cancelled

abbrev answer_report :
    Host → Option String → ReportTarget → String → String → Handling SidecarCommandOutcome
answer_report host trace_id t status reason = do
  send host trace_id "tool_report_fetch_finished" (report_finished t status reason)
  pure default_outcome

abbrev pub report_started :
    Host → Option String → ReportTarget → StartReportOutcome → Handling SidecarCommandOutcome
report_started host trace_id t Reports.started = pure default_outcome
report_started host trace_id t (Reports.busy reason) = answer_report host trace_id t "busy" reason

abbrev pub start_report :
    Host → Option String → ReportTarget → Option ToolRuntimePayload → Handling SidecarCommandOutcome
start_report host trace_id t none = answer_report host trace_id t "failed" "工具未在线或未接入，无法读取报告。"
start_report host trace_id t (some tool) = do
  start ← on_reports (Reports.start_request t tool trace_id)
  report_started host trace_id t start

unfoldable pub tool_report_fetch_request :
    Host → Option String → List ToolRuntimePayload → ReportTarget → Handling SidecarCommandOutcome
tool_report_fetch_request host trace_id discovered_tools t =
    start_report host trace_id t (find_tool t.tool_id discovered_tools)
