-- ===== src/Sidecar/Session/Command/Media.antt =====
-- services/sidecar/src/session/loop/command.rs: the commands that store a file and launch a tool
use your_connector.Common.{ℕ, Option, none, some, List, [], ◌∷◌, ◌++◌, String, Result, ok, err}
use your_connector.Common.Exec.{pure, ◌>>◌}
use your_connector.Common.Json.{Value, text, unsigned}
use your_connector.Sidecar.Control.{MediaStage, Launch}
use your_connector.Sidecar.Session.Command.Context.{
  SidecarCommandOutcome, default_outcome, snapshots_and_details, Host, Handling, send, StagedMedia,
  StageError,
}
use your_connector.Sidecar.Session.Command.Tools.{pid_value}
use your_connector.Sidecar.Session.Launch.{PreparedLaunch, prepare_launch_request}
use your_connector.Sidecar.Session.Tool.{ToolRuntimePayload, find_tool}

abbrev workspace_of : Option ToolRuntimePayload → Option String
workspace_of none = none
workspace_of (some tool) = tool.workspace_dir

abbrev of_media : MediaStage → List (String × Value)
of_media m =
    ("toolId", text m.tool_id)
    ∷ ("conversationKey", text m.conversation_key)
    ∷ ("requestId", text m.request_id)
    ∷ ("mediaId", text m.media_id)
    ∷ []

abbrev pub media_staged :
    Host → Option String → MediaStage → Result StageError StagedMedia → Handling (Unit {0})
media_staged host trace_id m (ok staged) = send host trace_id "tool_media_stage_finished" (
    of_media m
    ++ ("stagedMediaId", text staged.staged_media_id)
      ∷ ("mime", text staged.mime)
      ∷ ("size", unsigned staged.size)
      ∷ ("pathHint", text staged.path_hint)
      ∷ ("relativePath", text staged.relative_path)
      ∷ ("stagedPath", text staged.staged_path)
      ∷ ("expiresAt", text staged.expires_at)
      ∷ ("progress", unsigned 100)
      ∷ [])
media_staged host trace_id m (err e) =
    send host trace_id "tool_media_stage_failed"
      (of_media m ++ ("code", text e.code) ∷ ("reason", text e.reason) ∷ [])

unfoldable pub tool_media_stage_request :
    Host → Option String → List ToolRuntimePayload → MediaStage → Handling SidecarCommandOutcome
tool_media_stage_request host trace_id discovered_tools m = do
  send host trace_id "tool_media_stage_progress" (of_media m ++ ("progress", unsigned 0) ∷ [])
  media_staged host trace_id m
      (host.stage_media_attachment m (workspace_of (find_tool m.tool_id discovered_tools)))
  pure default_outcome

abbrev of_launch : Launch → List (String × Value)
of_launch l =
    ("toolName", text l.tool_name)
    ∷ ("cwd", text l.cwd)
    ∷ ("requestId", text l.request_id)
    ∷ ("conversationKey", text l.conversation_key)
    ∷ []

abbrev launch_failed : Host → Option String → Launch → String → Handling SidecarCommandOutcome
launch_failed host trace_id l reason = do
  send host trace_id "tool_launch_failed" (of_launch l ++ ("reason", text reason) ∷ [])
  pure default_outcome

abbrev pub launch_spawned :
    Host → Option String → Launch → Result String (Option ℕ) → Handling SidecarCommandOutcome
launch_spawned host trace_id l (ok pid) = do
  send host trace_id "tool_launch_finished" (
      of_launch l
      ++ ("pid", pid_value pid) ∷ ("status", text "started") ∷ ("reason", text "工具进程已启动。") ∷ [])
  pure snapshots_and_details
launch_spawned host trace_id l (err reason) = launch_failed host trace_id l reason

abbrev pub launch_prepared :
    Host → Option String → Launch → Result String PreparedLaunch → Handling SidecarCommandOutcome
launch_prepared host trace_id l (ok prepared) = do
  send host trace_id "tool_launch_started" (of_launch l)
  launch_spawned host trace_id l (host.spawn_launch_target prepared)
launch_prepared host trace_id l (err reason) = launch_failed host trace_id l reason

unfoldable pub tool_launch_request :
    Host → Option String → List ToolRuntimePayload → Launch → Handling SidecarCommandOutcome
tool_launch_request host trace_id discovered_tools l =
    launch_prepared host trace_id l (prepare_launch_request host.std host.files l discovered_tools)
