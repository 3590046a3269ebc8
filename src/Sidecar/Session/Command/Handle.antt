-- ===== src/Sidecar/Session/Command/Handle.antt =====
-- services/sidecar/src/session/loop/command.rs: `handle_sidecar_command`, put together
use your_connector.Common.{Bool, true, false, Option, none, some, List, String}
use your_connector.Common.Exec.{pure, ◌>>=◌}
use your_connector.Sidecar.Control.{
  SidecarCommand, refresh, connect_tool, disconnect_tool, reset_tool_whitelist,
  refresh_tool_details, control_tool_process, rebind_controller, tool_chat_request,
  tool_chat_cancel, tool_report_fetch_request, tool_media_stage_request, tool_launch_request,
  SidecarCommandEnvelope,
}
use your_connector.Sidecar.Session.Command.Context.{
  SidecarCommandOutcome, default_outcome, snapshots_and_details, details_only, request, Host,
  Handling,
}
use your_connector.Sidecar.Session.Command.Refusal
use your_connector.Sidecar.Session.Command.Refusal.{trace_id_of, permission, refuse_command}
use your_connector.Sidecar.Session.Command.Requests
use your_connector.Sidecar.Session.Command.Media
use your_connector.Sidecar.Session.Command.Tools
use your_connector.Sidecar.Session.Tool.{ToolRuntimePayload}

-- the `match` for a sender who may command
unfoldable pub run_command :
    Host → List ToolRuntimePayload → Option String → SidecarCommand → Handling SidecarCommandOutcome
run_command host tools trace_id refresh = pure snapshots_and_details
run_command host tools trace_id (connect_tool tool_id) =
    Tools.connect_tool host trace_id tools tool_id
run_command host tools trace_id (disconnect_tool tool_id) =
    Tools.disconnect_tool host trace_id tool_id
run_command host tools trace_id reset_tool_whitelist = Tools.reset_tool_whitelist host trace_id
run_command host tools trace_id (refresh_tool_details d) =
    pure (details_only d.tool_id d.force (some d.refresh_id) d.priority request)
run_command host tools trace_id (control_tool_process tool_id action) =
    Tools.control_tool_process host trace_id tools tool_id action
run_command host tools trace_id (rebind_controller device_id) = pure default_outcome
run_command host tools trace_id (tool_chat_request t message content) =
    Requests.tool_chat_request host trace_id tools t message content
run_command host tools trace_id (tool_chat_cancel t) = Requests.tool_chat_cancel host trace_id t
run_command host tools trace_id (tool_report_fetch_request t) =
    Requests.tool_report_fetch_request host trace_id tools t
run_command host tools trace_id (tool_media_stage_request m) =
    Media.tool_media_stage_request host trace_id tools m
run_command host tools trace_id (tool_launch_request l) =
    Media.tool_launch_request host trace_id tools l

unfoldable pub run_permitted :
    Host
    → List ToolRuntimePayload
    → SidecarCommandEnvelope
    → Bool × String
    → Handling SidecarCommandOutcome
run_permitted host tools e (true, reason) = run_command host tools (trace_id_of e) e.command
run_permitted host tools e (false, reason) = refuse_command host e reason

unfoldable pub authorized_command :
    Host → List ToolRuntimePayload → SidecarCommandEnvelope → Handling SidecarCommandOutcome
authorized_command host tools e = do
  permitted ← permission host e
  run_permitted host tools e permitted

-- the id of a command that binds another controller, the one command that needs no permission
abbrev pub rebinding : SidecarCommand → Option String
rebinding (rebind_controller device_id) = some device_id
rebinding _ = none

unfoldable pub handle_sidecar_command :
    Host → List ToolRuntimePayload → SidecarCommandEnvelope → Handling SidecarCommandOutcome
handle_sidecar_command host tools e = elim (rebinding e.command) [
  | some device_id ↦ Refusal.rebind_controller host e device_id
  | none ↦ authorized_command host tools e
]
