-- ===== src/Sidecar/Session/Chats.antt =====
-- services/sidecar/src/session/loop/chat.rs: `ChatRuntime`. A task that `tokio::spawn` starts is
-- recorded in `spawned`, and `cancel_tx` is the value in its watch channel.
pub mod Exclusive
use your_connector.Common.{
  ◌&&◌, not, Bool, true, false, Option, none, some, List, [], ◌∷◌, map, String, ◌<>◌, ◌==◌,
  string_eq, if◌then◌else◌,
}
use your_connector.Common.HashMap
use your_connector.Common.HashMap.{HashMap}
use your_connector.Common.Text.{trim, is_empty}
use your_connector.Sidecar.Control.{ChatContentPart, ChatTarget}
use your_connector.Sidecar.Session.Tool.{ToolRuntimePayload}

-- `ChatRequestInput`
pub record ChatRequestInput : Type 0 where
  pub target : ChatTarget
  pub message : String  -- the field `text`
  pub content : List ChatContentPart

pub data StartChatOutcome : Type 0 where
  started : StartChatOutcome
  busy : String → StartChatOutcome

pub data CancelChatOutcome : Type 0 where
  accepted not_found : CancelChatOutcome

pub record ActiveChatTask : Type 0 where
  pub tool_id : String
  pub queue_item_id : String
  pub request_id : String
  pub cancel_tx : Bool

-- what `run_chat_task` is started with
pub record ChatTask : Type 0 where
  pub request : ChatRequestInput
  pub tool : ToolRuntimePayload
  pub trace_id : Option String

pub record ChatRuntime : Type 0 where
  pub active_by_conversation : HashMap String ActiveChatTask
  pub spawned : List ChatTask

abbrev pub new_task : ChatTarget → ActiveChatTask
new_task t = record {
  tool_id = t.tool_id;
  queue_item_id = t.queue_item_id;
  request_id = t.request_id;
  cancel_tx = false;
}

unfoldable pub start_request :
    ChatRequestInput
    → ToolRuntimePayload
    → Option String
    → ChatRuntime
    → StartChatOutcome × ChatRuntime
start_request request tool trace_id s =
    let key = request.target.conversation_key in
    elim (HashMap.get key s.active_by_conversation) [
      | some active ↦ (busy ("会话中已有进行中的请求：" <> active.request_id), s)
      | none ↦ (
        started,
        record {
          active_by_conversation =
              HashMap.insert key (new_task request.target) s.active_by_conversation;
          spawned = record { request = request; tool = tool; trace_id = trace_id } ∷ s.spawned;
        },
      )
    ]

-- the three tests of `cancel_request`: a field left blank is not compared, but the request id is
unfoldable pub is_cancelled_by : ChatTarget → ActiveChatTask → Bool
is_cancelled_by cancel active =
    if not (is_empty (trim cancel.tool_id)) && not (active.tool_id == cancel.tool_id)
    then false
    else if not (is_empty (trim cancel.queue_item_id))
        && not (active.queue_item_id == cancel.queue_item_id)
    then false
    else active.request_id == cancel.request_id

unfoldable pub cancel_request : ChatTarget → ChatRuntime → CancelChatOutcome × ChatRuntime
cancel_request cancel s = elim (HashMap.get cancel.conversation_key s.active_by_conversation) [
  | none ↦ (not_found, s)
  | some active ↦
      if is_cancelled_by cancel active
      then (
        accepted,
        record s {
          active_by_conversation =
              HashMap.insert cancel.conversation_key (record active { cancel_tx = true })
                s.active_by_conversation;
        },
      )
      else (not_found, s)
]

-- `ChatFinalizeKey`
pub record ChatFinalizeKey : Type 0 where
  pub conversation_key : String
  pub request_id : String

abbrev is_of_request : String → Option ActiveChatTask → Bool
is_of_request request_id none = false
is_of_request request_id (some active) = active.request_id == request_id

unfoldable pub mark_finished : ChatFinalizeKey → ChatRuntime → ChatRuntime
mark_finished key s =
    if is_of_request key.request_id (HashMap.get key.conversation_key s.active_by_conversation)
    then record s {
      active_by_conversation = HashMap.remove key.conversation_key s.active_by_conversation;
    }
    else s

-- The tasks that are left no longer stand in the map, so they come back, with their channels set.
unfoldable pub abort_all : ChatRuntime → List ActiveChatTask × ChatRuntime
abort_all s = (
  map (λ (entry : String × ActiveChatTask). record entry.1 { cancel_tx = true })
      s.active_by_conversation,
  record s { active_by_conversation = HashMap.empty },
)
