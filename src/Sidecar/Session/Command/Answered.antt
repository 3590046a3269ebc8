-- ===== src/Sidecar/Session/Command/Answered.antt =====
-- What the sender of a chat request gets.
use your_connector.Common.{
  ◌≡◌, refl, Option, some, List, ◌∷◌, String, ok, string_eq, ◌<>◌, Option-cases, inl, inr,
}
use your_connector.Common.HashMap
use your_connector.Sidecar.Control.{ChatTarget, ChatContentPart}
use your_connector.Sidecar.Session.Chats
use your_connector.Sidecar.Session.Chats.{ChatTask}
use your_connector.Sidecar.Session.Command.Context.{default_outcome, Host, Session, send, on_chats}
use your_connector.Sidecar.Session.Command.Refusal.{chat_finished}
use your_connector.Sidecar.Session.Command.Requests.{tool_chat_request}
use your_connector.Sidecar.Session.Tool.{ToolRuntimePayload, find_tool}
use your_connector.Sidecar.Session.Transport.{Event, trace_of, next, json, send_event}

-- the message that a request has ended, with why
abbrev pub finished : Host → Option String → Session → ChatTarget → String → String → Event
finished host trace_id s t status reason = record {
  event_type = "tool_chat_finished";
  system_id = host.system_id;
  seq = next s.wire.seq;
  trace_id = trace_of trace_id;
  payload = json (chat_finished t status reason);
}

-- how the session may stand after a chat request
pub data IsAnswered (host : Host) (trace_id : Option String) (t : ChatTarget) (message : String)
    (content : List ChatContentPart) (tools : List ToolRuntimePayload) (s after : Session)
    : Type 0 where
  by_task :
      (tool : ToolRuntimePayload)
      → find_tool t.tool_id tools ≡ some tool
      → after.chats.spawned
        ≡ record {
          request = record { target = t; message = message; content = content };
          tool = tool;
          trace_id = trace_id;
        }
          ∷ s.chats.spawned
      → after.wire ≡ s.wire
      → IsAnswered host trace_id t message content tools s after
  by_message :
      (status reason : String)
      → after.chats ≡ s.chats
      → after.wire ≡ record {
        seq = next s.wire.seq;
        sent = finished host trace_id s t status reason ∷ s.wire.sent;
      }
      → IsAnswered host trace_id t message content tools s after

-- A chat request that may be made is never lost: either a task is started for it, with the tool that
-- it names, or one message says that this request has ended, and no task is started. Messages are
-- taken to be written.
pub chat_request-IsAnswered :
    (host : Host) (trace_id : Option String) (tools : List ToolRuntimePayload) (t : ChatTarget)
    (message : String) (content : List ChatContentPart) (s : Session)
    → ((event : Event) → host.message_written event ≡ ok tt)
    → ((tool_chat_request host trace_id tools t message content s).0 ≡ ok default_outcome)
      × IsAnswered host trace_id t message content tools s
          (tool_chat_request host trace_id tools t message content s).1
unfolding tool_chat_request on_chats send send_event Chats.start_request
chat_request-IsAnswered host trace_id tools t message content s written =
    elim (Option-cases (find_tool t.tool_id tools)) [
      | inl unknown ↦
          rw (tool_chat_request, unknown, send, send_event, written _)
            (refl, by_message "failed" "工具未在线或未接入，无法发起聊天。" refl refl)
      | inr (tool, known) ↦
          elim (Option-cases (HashMap.get t.conversation_key s.chats.active_by_conversation)) [
            | inl free ↦
                rw (tool_chat_request, known, on_chats, Chats.start_request, free)
                  (refl, by_task tool known refl refl)
            | inr (active, taken) ↦
                rw
                  (
                    tool_chat_request,
                    known,
                    on_chats,
                    Chats.start_request,
                    taken,
                    send,
                    send_event,
                    written _,
                  )
                  (refl, by_message "busy" ("会话中已有进行中的请求：" <> active.request_id) refl refl)
          ]
    ]
