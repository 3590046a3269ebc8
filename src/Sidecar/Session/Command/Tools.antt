-- ===== src/Sidecar/Session/Command/Tools.antt =====
-- services/sidecar/src/session/loop/command.rs: the commands on tools and on their processes
use your_connector.Common.{
  ℕ, ltb, ◌||◌, not, Bool, true, Option, none, some, List, [], ◌∷◌, String, ◌<>◌, Result, ok, err,
  if◌then◌else◌,
}
use your_connector.Common.Exec.{pure, ◌>>=◌, ◌>>◌}
use your_connector.Common.Json.{Value, null, text, bool, unsigned}
use your_connector.Common.Text.{to_decimal}
use your_connector.Sidecar.Control.{ToolProcessAction, stop, restart, action_str}
use your_connector.Sidecar.Session.Command.Context.{
  SidecarCommandOutcome, default_outcome, snapshots_and_details, Host, StopResult, Handling, send,
  on_whitelist, Answer, done, failed, answer_of,
}
use your_connector.Sidecar.Session.Tool.{
  ToolRuntimePayload, find_tool, is_fallback_tool, is_openclaw_tool, is_opencode_tool,
}
use your_connector.Sidecar.Stores.Whitelist
use your_connector.Sidecar.Stores.Whitelist.{clear}

abbrev tool_answer : String → String → Answer → List (String × Value)
tool_answer action tool_id answer =
    ("action", text action)
    ∷ ("toolId", text tool_id)
    ∷ ("ok", bool answer.is_done)
    ∷ ("changed", bool answer.changed)
    ∷ ("reason", text answer.reason)
    ∷ []

abbrev pub connect_answer : Host → String → Option ToolRuntimePayload → Handling Answer
connect_answer host tool_id none = pure (failed "工具不在当前候选列表，无法接入。")
connect_answer host tool_id (some tool) =
    if is_fallback_tool tool then pure (failed "fallback 工具仅用于占位展示，不能接入。") else (do
      changed ← on_whitelist (Whitelist.add host.whitelist_written tool_id)
      pure (answer_of "更新白名单失败: " changed))

unfoldable pub connect_tool :
    Host → Option String → List ToolRuntimePayload → String → Handling SidecarCommandOutcome
connect_tool host trace_id discovered_tools tool_id = do
  answer ← connect_answer host tool_id (find_tool tool_id discovered_tools)
  send host trace_id "tool_whitelist_updated" (tool_answer "connect" tool_id answer)
  pure snapshots_and_details

unfoldable pub disconnect_tool : Host → Option String → String → Handling SidecarCommandOutcome
disconnect_tool host trace_id tool_id = do
  changed ← on_whitelist (Whitelist.remove host.whitelist_written tool_id)
  send host trace_id "tool_whitelist_updated"
      (tool_answer "disconnect" tool_id (answer_of "更新白名单失败: " changed))
  pure snapshots_and_details

abbrev reset_answer : Result String ℕ → Answer × ℕ
reset_answer (ok removed) = (done (ltb 0 removed), removed)
reset_answer (err e) = (failed ("清空白名单失败: " <> e), 0)

unfoldable pub reset_tool_whitelist : Host → Option String → Handling SidecarCommandOutcome
reset_tool_whitelist host trace_id = do
  removed ← on_whitelist (clear host.whitelist_written)
  let (answer, removed_count) = reset_answer removed
  send host trace_id "tool_whitelist_updated" (
      ("action", text "reset")
      ∷ ("toolId", text "")
      ∷ ("ok", bool answer.is_done)
      ∷ ("changed", bool answer.changed)
      ∷ ("removedCount", unsigned removed_count)
      ∷ ("reason", text answer.reason)
      ∷ [])
  pure snapshots_and_details

abbrev stop_answer : StopResult → Answer
stop_answer r = record { is_done = r.stopped; changed = r.changed; reason = r.reason }

abbrev restart_answer : Result String (Bool × Option ℕ) → Answer × Option ℕ
restart_answer (ok (changed, some pid)) = (
  record {
    is_done = true;
    changed = changed;
    reason = "已重启 OpenClaw 进程，新 PID: " <> to_decimal pid;
  },
  some pid,
)
restart_answer (ok (changed, none)) =
    (record { is_done = true; changed = changed; reason = "已重启 OpenClaw 进程。" }, none)
restart_answer (err e) = (failed e, none)

-- the inner `match action`
abbrev process_action : Host → ToolRuntimePayload → ToolProcessAction → Option ℕ → Answer × Option ℕ
process_action host tool stop (some pid) = (stop_answer (host.stop_process pid), none)
process_action host tool stop none = (failed "未找到可控制的进程 PID。", none)
process_action host tool restart pid =
    if not (is_openclaw_tool host.std tool)
    then (failed "代码工具当前仅支持停止；重启请手动拉起新进程。", none)
    else elim pid [
      | some value ↦ restart_answer (host.restart_process value)
      | none ↦ (failed "未找到可控制的进程 PID。", none)
    ]

-- the answer, and the PID of a process started again
unfoldable pub process_answer :
    Host → Option ToolRuntimePayload → ToolProcessAction → Answer × Option ℕ
process_answer host none action = (failed "工具不在当前列表，无法执行进程控制。", none)
process_answer host (some tool) action =
    if is_openclaw_tool host.std tool || is_opencode_tool host.std tool
    then process_action host tool action tool.pid
    else (failed "当前仅支持对 OpenClaw 与代码工具执行进程控制。", none)

abbrev pid_of : Option ToolRuntimePayload → Option ℕ
pid_of none = none
pid_of (some tool) = tool.pid

abbrev pub pid_value : Option ℕ → Value
pid_value none = null
pid_value (some pid) = unsigned pid

unfoldable pub control_tool_process :
    Host
    → Option String
    → List ToolRuntimePayload
    → String
    → ToolProcessAction
    → Handling SidecarCommandOutcome
control_tool_process host trace_id discovered_tools tool_id action = do
  let candidate = find_tool tool_id discovered_tools
  let (answer, new_pid) = process_answer host candidate action
  send host trace_id "tool_process_control_updated" (
      ("action", text (action_str action))
      ∷ ("toolId", text tool_id)
      ∷ ("ok", bool answer.is_done)
      ∷ ("changed", bool answer.changed)
      ∷ ("reason", text answer.reason)
      ∷ ("pid", pid_value (pid_of candidate))
      ∷ ("newPid", pid_value new_pid)
      ∷ [])
  pure (if answer.is_done then snapshots_and_details else default_outcome)
