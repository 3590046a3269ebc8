-- ===== src/Sidecar/Control/Parse.antt =====
-- services/sidecar/src/control.rs: `parse_sidecar_command`. `uuid` is the one that an event without
-- a `refreshId` gets.
use your_connector.Common.{
  Bool, true, false, ◌&&◌, Option, none, some, List, [], ◌∷◌, String, ◌<>◌, ok, err, ◌==◌,
  string_eq, if◌then◌else◌,
}
use your_connector.Common.Options.{◌>>=◌, ◌>>◌, refuse, or_else, unwrap_or, map_option}
use your_connector.Common.Json
use your_connector.Common.Json.{
  Value, object, Fields, end, value_get, trimmed_text, filled_text, then_str, map_trim, as_bool,
  Serde,
}
use your_connector.Common.Text.{trim, is_empty}
use your_connector.Sidecar.Control.{
  ToolDetailsRefreshPriority, user, background, ToolProcessAction, stop, restart, ChatContentPart,
  SidecarCommand, refresh, connect_tool, disconnect_tool, reset_tool_whitelist,
  refresh_tool_details, control_tool_process, rebind_controller, tool_chat_request,
  tool_chat_cancel, tool_report_fetch_request, tool_media_stage_request, tool_launch_request,
  SidecarCommandEnvelope,
}
use your_connector.Sidecar.Control.Fields.{eq_ignore_ascii_case}
use your_connector.Sidecar.Control.Content.{parse_chat_content_parts}

-- a field of the payload that the command needs
abbrev required : String → Fields → Option String
required key payload = filled_text (Json.get key payload)

abbrev is_no_content : List ChatContentPart → Bool
is_no_content [] = true
is_no_content (p ∷ ps) = false

abbrev priority_of : String → ToolDetailsRefreshPriority
priority_of s = if eq_ignore_ascii_case s "user" then user else background

abbrev action_of : String → Option ToolProcessAction
action_of s =
    if eq_ignore_ascii_case s "stop"
    then some stop
    else if eq_ignore_ascii_case s "restart"
    then some restart
    else none

abbrev then_bool : Option Value → Option Bool
then_bool none = none
then_bool (some v) = as_bool v

unfoldable pub parse_details_refresh : String → Fields → SidecarCommand
parse_details_refresh uuid payload = refresh_tool_details (record {
  refresh_id = unwrap_or (required "refreshId" payload) ("drf_" <> uuid);
  tool_id = required "toolId" payload;
  force = unwrap_or (then_bool (Json.get "force" payload)) false;
  priority =
      unwrap_or (map_option priority_of (map_trim (then_str (Json.get "priority" payload))))
        background;
})

unfoldable pub parse_process_control : Fields → Option SidecarCommand
parse_process_control payload = do
  tool_id ← required "toolId" payload
  word ← map_trim (then_str (Json.get "action" payload))
  action ← action_of word
  some (control_tool_process tool_id action)

unfoldable pub parse_rebind : String → Fields → Option SidecarCommand
parse_rebind source_device_id payload =
    let value = trim source_device_id in
    map_option rebind_controller
      (or_else (required "deviceId" payload) (if is_empty value then none else some value))

unfoldable pub parse_chat_request : Fields → Option SidecarCommand
parse_chat_request payload = do
  tool_id ← required "toolId" payload
  conversation_key ← required "conversationKey" payload
  request_id ← required "requestId" payload
  let text = trimmed_text (Json.get "text" payload)
  let content = parse_chat_content_parts (Json.get "content" payload)
  refuse (is_empty (trim text) && is_no_content content)
  some (
      tool_chat_request
        (record {
          tool_id = tool_id;
          conversation_key = conversation_key;
          request_id = request_id;
          queue_item_id = unwrap_or (required "queueItemId" payload) request_id;
        })
        text content)

unfoldable pub parse_chat_cancel : Fields → Option SidecarCommand
parse_chat_cancel payload = do
  conversation_key ← required "conversationKey" payload
  request_id ← required "requestId" payload
  some (
      tool_chat_cancel (record {
        tool_id = trimmed_text (Json.get "toolId" payload);
        conversation_key = conversation_key;
        request_id = request_id;
        queue_item_id = unwrap_or (required "queueItemId" payload) request_id;
      }))

unfoldable pub parse_report_fetch : Fields → Option SidecarCommand
parse_report_fetch payload = do
  tool_id ← required "toolId" payload
  conversation_key ← required "conversationKey" payload
  request_id ← required "requestId" payload
  file_path ← required "filePath" payload
  some (
      tool_report_fetch_request (record {
        tool_id = tool_id;
        conversation_key = conversation_key;
        request_id = request_id;
        file_path = file_path;
      }))

unfoldable pub parse_media_stage : Fields → Option SidecarCommand
parse_media_stage payload = do
  tool_id ← required "toolId" payload
  conversation_key ← required "conversationKey" payload
  request_id ← required "requestId" payload
  media_id ← required "mediaId" payload
  mime ← required "mime" payload
  data_base64 ← required "dataBase64" payload
  some (
      tool_media_stage_request (record {
        tool_id = tool_id;
        conversation_key = conversation_key;
        request_id = request_id;
        media_id = media_id;
        mime = mime;
        data_base64 = data_base64;
        path_hint = trimmed_text (Json.get "pathHint" payload);
      }))

unfoldable pub parse_launch : Fields → Option SidecarCommand
parse_launch payload = do
  tool_name ← filled_text (or_else (Json.get "toolName" payload) (Json.get "tool" payload))
  cwd ← required "cwd" payload
  request_id ← required "requestId" payload
  some (
      tool_launch_request (record {
        tool_name = tool_name;
        cwd = cwd;
        request_id = request_id;
        conversation_key = trimmed_text (Json.get "conversationKey" payload);
      }))

-- the `match event_type`
unfoldable pub command_of : String → String → String → Fields → Option SidecarCommand
command_of uuid event_type source_device_id payload =
    if event_type == "tools_refresh_request"
    then some refresh
    else if event_type == "tool_connect_request"
    then map_option connect_tool (required "toolId" payload)
    else if event_type == "tool_disconnect_request"
    then map_option disconnect_tool (required "toolId" payload)
    else if event_type == "tool_whitelist_reset_request"
    then some reset_tool_whitelist
    else if event_type == "tool_details_refresh_request"
    then some (parse_details_refresh uuid payload)
    else if event_type == "tool_process_control_request"
    then parse_process_control payload
    else if event_type == "controller_rebind_request"
    then parse_rebind source_device_id payload
    else if event_type == "tool_chat_request"
    then parse_chat_request payload
    else if event_type == "tool_chat_cancel_request"
    then parse_chat_cancel payload
    else if event_type == "tool_report_fetch_request"
    then parse_report_fetch payload
    else if event_type == "tool_media_stage_request"
    then parse_media_stage payload
    else if event_type == "tool_launch_request"
    then parse_launch payload
    else none

abbrev pub object_or_empty : Option Value → Fields
object_or_empty (some (object fields)) = fields
object_or_empty _ = end

-- what comes after the reading of the text
unfoldable pub command_envelope : String → Value → Option SidecarCommandEnvelope
command_envelope uuid event = do
  let event_type = trimmed_text (value_get "type" event)
  let payload = object_or_empty (value_get "payload" event)
  let source_device_id =
      trimmed_text (or_else (value_get "sourceDeviceId" event) (value_get "peerId" event))
  command ← command_of uuid event_type source_device_id payload
  some (record {
    event_type = event_type;
    event_id = trimmed_text (value_get "eventId" event);
    trace_id = trimmed_text (value_get "traceId" event);
    command = command;
    source_client_type = trimmed_text (value_get "sourceClientType" event);
    source_device_id = source_device_id;
  })

unfoldable pub parse_sidecar_command : Serde → String → String → Option SidecarCommandEnvelope
parse_sidecar_command c uuid raw = elim (c.from_str raw) [
  | ok event ↦ command_envelope uuid event
  | err e ↦ none
]
