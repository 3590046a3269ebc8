-- ===== src/Sidecar/Session/Reports.antt =====
-- services/sidecar/src/session/loop/report.rs: `ReportRuntime`. A task that `tokio::spawn` starts
-- is recorded in `spawned`, and `cancel_tx` is the value in its watch channel.
pub mod Chunks
pub mod Bytes
pub mod Complete
pub mod Paths
pub mod Allowed
mod Tests
use your_connector.Common.{
  Bool, true, false, Option, none, some, List, ◌∷◌, map, String, ◌<>◌, ◌==◌, string_eq,
  if◌then◌else◌,
}
use your_connector.Common.HashMap
use your_connector.Common.HashMap.{HashMap}
use your_connector.Sidecar.Control.{ReportTarget}
use your_connector.Sidecar.Session.Tool.{ToolRuntimePayload}

pub data StartReportOutcome : Type 0 where
  started : StartReportOutcome
  busy : String → StartReportOutcome

pub record ActiveReportTask : Type 0 where
  pub request_id : String
  pub cancel_tx : Bool

-- what `run_report_task` is started with
pub record ReportTask : Type 0 where
  pub request : ReportTarget
  pub tool : ToolRuntimePayload
  pub trace_id : Option String

pub record ReportRuntime : Type 0 where
  pub active_by_conversation : HashMap String ActiveReportTask
  pub spawned : List ReportTask

unfoldable pub start_request :
    ReportTarget
    → ToolRuntimePayload
    → Option String
    → ReportRuntime
    → StartReportOutcome × ReportRuntime
start_request request tool trace_id s =
    elim (HashMap.get request.conversation_key s.active_by_conversation) [
      | some active ↦ (busy ("会话中已有进行中的报告请求：" <> active.request_id), s)
      | none ↦ (
        started,
        record {
          active_by_conversation =
              HashMap.insert request.conversation_key
                (record { request_id = request.request_id; cancel_tx = false })
                s.active_by_conversation;
          spawned = record { request = request; tool = tool; trace_id = trace_id } ∷ s.spawned;
        },
      )
    ]

-- `ReportFinalizeKey`
pub record ReportFinalizeKey : Type 0 where
  pub conversation_key : String
  pub request_id : String

abbrev is_of_request : String → Option ActiveReportTask → Bool
is_of_request request_id none = false
is_of_request request_id (some active) = active.request_id == request_id

unfoldable pub mark_finished : ReportFinalizeKey → ReportRuntime → ReportRuntime
mark_finished key s =
    if is_of_request key.request_id (HashMap.get key.conversation_key s.active_by_conversation)
    then record s {
      active_by_conversation = HashMap.remove key.conversation_key s.active_by_conversation;
    }
    else s

unfoldable pub abort_all : ReportRuntime → List ActiveReportTask × ReportRuntime
abort_all s = (
  map (λ (entry : String × ActiveReportTask). record entry.1 { cancel_tx = true })
      s.active_by_conversation,
  record s { active_by_conversation = HashMap.empty },
)
