-- ===== src/Sidecar/Session/Details.antt =====
-- services/sidecar/src/session/loop/mod.rs: when the details of the tools are collected again. The
-- time at which an intent was queued is left out.
pub mod Pending
pub mod Latest
use your_connector.Common.{
  ℕ, ◌+◌, ◌-◌, ◌^◌, min, Bool, true, false, Option, none, some, List, [], ◌∷◌, String, Result, ok,
  err, ◌==◌, ltb, if◌then◌else◌,
}
use your_connector.Common.HashMap.{HashMap}
use your_connector.Sidecar.Control.{
  ToolDetailsRefreshPriority, user, background, SidecarCommand, tool_chat_request, tool_chat_cancel,
  tool_report_fetch_request, SidecarCommandEnvelope,
}
use your_connector.Sidecar.Session.Command.Context.{
  ToolDetailsSnapshotTrigger, SidecarCommandOutcome,
}
use your_connector.Sidecar.Session.Queue.{
  QueueKey, tool_details, tools_refresh, metrics, pairing_banner, control, chat, report,
  queue_key_eq, QueuePolicy, latest_wins_policy, serialized_policy, fifo_policy, QueueScheduler,
  enqueue, pop_next, update_latest,
}

pub record DetailsRefreshIntent : Type 0 where
  pub generation : ℕ
  pub target_tool_id : Option String
  pub force : Bool
  pub refresh_id : Option String
  pub priority : ToolDetailsRefreshPriority
  pub trigger : ToolDetailsSnapshotTrigger
  pub dropped_refreshes : ℕ

abbrev pub is_priority_command : SidecarCommand → Bool
is_priority_command (tool_chat_request t message content) = true
is_priority_command (tool_chat_cancel t) = true
is_priority_command (tool_report_fetch_request t) = true
is_priority_command _ = false

-- `saturating_add` of u64 and of u32
abbrev pub add_u64 : ℕ → ℕ → ℕ
add_u64 a b = min (a + b) (2 ^ 64 - 1)

abbrev pub add_u32 : ℕ → ℕ → ℕ
add_u32 a b = min (a + b) (2 ^ 32 - 1)

-- the scheduler and `latest_generation`
pub record Details : Type 0 where
  pub scheduler : QueueScheduler DetailsRefreshIntent
  pub latest_generation : ℕ

abbrev add_dropped : ℕ → DetailsRefreshIntent → DetailsRefreshIntent
add_dropped dropped i = record i { dropped_refreshes = add_u32 i.dropped_refreshes dropped }

-- `enqueue`, and the count of what it has replaced put into the intent that is now the latest
unfoldable pub enqueue_counted :
    QueueScheduler DetailsRefreshIntent → DetailsRefreshIntent → QueueScheduler DetailsRefreshIntent
enqueue_counted q intent =
    let (queued, dropped) = enqueue q tool_details intent in
    if ltb 0 dropped then update_latest queued tool_details (add_dropped dropped) else queued

unfoldable pub enqueue_details_refresh :
    Option String
    → Bool
    → Option String
    → ToolDetailsRefreshPriority
    → ToolDetailsSnapshotTrigger
    → Details
    → Details
enqueue_details_refresh target_tool_id force refresh_id priority trigger d =
    let generation = add_u64 d.latest_generation 1 in
    record {
      scheduler = enqueue_counted d.scheduler (record {
        generation = generation;
        target_tool_id = target_tool_id;
        force = force;
        refresh_id = refresh_id;
        priority = priority;
        trigger = trigger;
        dropped_refreshes = 0;
      });
      latest_generation = generation;
    }

-- what `try_send` to the worker returns
pub data TrySend : Type 0 where
  sent full closed : TrySend

abbrev dispatched :
    TrySend
    → DetailsRefreshIntent
    → QueueScheduler DetailsRefreshIntent
    → Result String (Option DetailsRefreshIntent) × QueueScheduler DetailsRefreshIntent
dispatched sent intent q = (ok (some intent), q)
dispatched full intent q = (ok none, enqueue_counted q intent)
dispatched closed intent q = (err "details worker channel closed", q)

abbrev pub dispatch_popped :
    TrySend
    → Option (QueueKey × DetailsRefreshIntent) × QueueScheduler DetailsRefreshIntent
    → Result String (Option DetailsRefreshIntent) × QueueScheduler DetailsRefreshIntent
dispatch_popped try_send (none, rest) = (ok none, rest)
dispatch_popped try_send (some (queue_key, intent), rest) =
    if queue_key == tool_details then dispatched try_send intent rest else (ok none, rest)

-- With the intent that went to the worker, if one did. Its collect request, which the worker gets
-- beside it, is left out.
unfoldable pub dispatch_details_refresh :
    TrySend
    → QueueScheduler DetailsRefreshIntent
    → Result String (Option DetailsRefreshIntent) × QueueScheduler DetailsRefreshIntent
dispatch_details_refresh try_send q = dispatch_popped try_send (pop_next q)

abbrev pub default_queue_policies : HashMap QueueKey QueuePolicy
default_queue_policies =
    (tool_details, latest_wins_policy)
    ∷ (tools_refresh, latest_wins_policy)
    ∷ (metrics, latest_wins_policy)
    ∷ (pairing_banner, latest_wins_policy)
    ∷ (control, serialized_policy 64)
    ∷ (chat, fifo_policy 128)
    ∷ (report, fifo_policy 64)
    ∷ []

abbrev is_user : ToolDetailsRefreshPriority → Bool
is_user user = true
is_user background = false

-- the part of `handle_command_envelope` after the command: what is enqueued, and whether it is to be
-- dispatched now
unfoldable pub enqueue_outcome : SidecarCommandOutcome → Details → Bool × Details
enqueue_outcome outcome d =
    if outcome.refresh_details
    then (
      is_user outcome.detail_priority,
      enqueue_details_refresh outcome.detail_tool_id outcome.force_detail_refresh
          outcome.detail_refresh_id outcome.detail_priority outcome.detail_trigger d,
    )
    else (false, d)
