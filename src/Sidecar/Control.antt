-- ===== src/Sidecar/Control.antt =====
-- services/sidecar/src/control.rs: the commands that the app sends to the sidecar
pub mod Fields
pub mod Content
pub mod Parse
pub mod Source
pub mod Tests
use your_connector.Common.{ℕ, String, List, Bool, Option, none, some}

-- `ToolDetailsRefreshPriority` of the protocol
pub data ToolDetailsRefreshPriority : Type 0 where
  user background : ToolDetailsRefreshPriority

pub data ToolProcessAction : Type 0 where
  stop restart : ToolProcessAction

-- `ToolProcessAction::as_str`
abbrev pub action_str : ToolProcessAction → String
action_str stop = "stop"
action_str restart = "restart"

pub record ChatContentPart : Type 0 where
  pub kind : String
  pub media_id : String
  pub mime : String
  pub size : ℕ
  pub duration_ms : ℕ
  pub content_text : String  -- the field `text`
  pub path_hint : String
  pub data_base64 : String
  pub staged_media_id : String
  pub stage_error_code : String
  pub stage_error_reason : String

-- the fields that a chat request and its cancellation share
pub record ChatTarget : Type 0 where
  pub tool_id : String
  pub conversation_key : String
  pub request_id : String
  pub queue_item_id : String

pub record ReportTarget : Type 0 where
  pub tool_id : String
  pub conversation_key : String
  pub request_id : String
  pub file_path : String

pub record MediaStage : Type 0 where
  pub tool_id : String
  pub conversation_key : String
  pub request_id : String
  pub media_id : String
  pub mime : String
  pub data_base64 : String
  pub path_hint : String

pub record Launch : Type 0 where
  pub tool_name : String
  pub cwd : String
  pub request_id : String
  pub conversation_key : String

pub record DetailsRefresh : Type 0 where
  pub refresh_id : String
  pub tool_id : Option String
  pub force : Bool
  pub priority : ToolDetailsRefreshPriority

pub data SidecarCommand : Type 0 where
  refresh : SidecarCommand
  connect_tool : String → SidecarCommand
  disconnect_tool : String → SidecarCommand
  reset_tool_whitelist : SidecarCommand
  refresh_tool_details : DetailsRefresh → SidecarCommand
  control_tool_process : String → ToolProcessAction → SidecarCommand
  rebind_controller : String → SidecarCommand
  tool_chat_request : ChatTarget → String → List ChatContentPart → SidecarCommand
  tool_chat_cancel : ChatTarget → SidecarCommand
  tool_report_fetch_request : ReportTarget → SidecarCommand
  tool_media_stage_request : MediaStage → SidecarCommand
  tool_launch_request : Launch → SidecarCommand

pub record SidecarCommandEnvelope : Type 0 where
  pub event_type : String
  pub event_id : String
  pub trace_id : String
  pub command : SidecarCommand
  pub source_client_type : String
  pub source_device_id : String

abbrev or_blank : Option String → String
or_blank none = ""
or_blank (some s) = s

unfoldable pub command_feedback_parts : SidecarCommand → String × String
command_feedback_parts refresh = ("refresh", "")
command_feedback_parts (connect_tool tool_id) = ("connect", tool_id)
command_feedback_parts (disconnect_tool tool_id) = ("disconnect", tool_id)
command_feedback_parts reset_tool_whitelist = ("reset", "")
command_feedback_parts (refresh_tool_details d) = ("refresh-details", or_blank d.tool_id)
command_feedback_parts (control_tool_process tool_id action) = (action_str action, tool_id)
command_feedback_parts (rebind_controller device_id) = ("rebind-controller", device_id)
command_feedback_parts (tool_chat_request t text content) = ("chat-request", t.tool_id)
command_feedback_parts (tool_chat_cancel t) = ("chat-cancel", t.tool_id)
command_feedback_parts (tool_report_fetch_request t) = ("report-fetch", t.tool_id)
command_feedback_parts (tool_media_stage_request m) = ("media-stage", m.tool_id)
command_feedback_parts (tool_launch_request l) = ("launch", l.tool_name)

unfoldable pub command_feedback_event : SidecarCommand → String
command_feedback_event (control_tool_process tool_id action) = "tool_process_control_updated"
command_feedback_event (tool_chat_request t text content) = "tool_chat_finished"
command_feedback_event (tool_chat_cancel t) = "tool_chat_finished"
command_feedback_event (tool_report_fetch_request t) = "tool_report_fetch_finished"
command_feedback_event (tool_media_stage_request m) = "tool_media_stage_failed"
command_feedback_event (tool_launch_request l) = "tool_launch_failed"
command_feedback_event _ = "tool_whitelist_updated"
