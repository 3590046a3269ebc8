-- ===== src/Sidecar/Session/Command/Context.antt =====
-- services/sidecar/src/session/loop/command.rs: the context of a command and its outcome. What
-- processes and files do for a command is part of `Host`.
use your_connector.Common.{ℕ, Bool, true, false, Option, none, List, String, ◌<>◌, Result, ok, err}
use your_connector.Common.Exec.{Exec}
use your_connector.Common.Json.{Value}
use your_connector.Sidecar.Control.{ToolDetailsRefreshPriority, background, MediaStage}
use your_connector.Sidecar.Session.Chats.{ChatRuntime}
use your_connector.Sidecar.Session.Launch.{Files, PreparedLaunch}
use your_connector.Sidecar.Session.Reports.{ReportRuntime}
use your_connector.Sidecar.Session.Tool.{Std}
use your_connector.Sidecar.Session.Transport.{Event, Wire, json, send_event}
use your_connector.Sidecar.Stores.Controllers.{ControllerDevicesStore}
use your_connector.Sidecar.Stores.Whitelist.{ToolWhitelistStore}

-- of the protocol
pub data ToolDetailsSnapshotTrigger : Type 0 where
  request periodic command cache : ToolDetailsSnapshotTrigger

pub record SidecarCommandOutcome : Type 0 where
  pub refresh_snapshots : Bool
  pub refresh_details : Bool
  pub detail_tool_id : Option String
  pub force_detail_refresh : Bool
  pub detail_refresh_id : Option String
  pub detail_priority : ToolDetailsRefreshPriority
  pub detail_trigger : ToolDetailsSnapshotTrigger

-- `SidecarCommandOutcome::default()`
abbrev pub default_outcome : SidecarCommandOutcome
default_outcome = record {
  refresh_snapshots = false;
  refresh_details = false;
  detail_tool_id = none;
  force_detail_refresh = false;
  detail_refresh_id = none;
  detail_priority = background;
  detail_trigger = periodic;
}

abbrev pub snapshots_and_details : SidecarCommandOutcome
snapshots_and_details = record {
  refresh_snapshots = true;
  refresh_details = true;
  detail_tool_id = none;
  force_detail_refresh = true;
  detail_refresh_id = none;
  detail_priority = background;
  detail_trigger = command;
}

abbrev pub details_only :
    Option String
    → Bool
    → Option String
    → ToolDetailsRefreshPriority
    → ToolDetailsSnapshotTrigger
    → SidecarCommandOutcome
details_only detail_tool_id force detail_refresh_id detail_priority detail_trigger = record {
  refresh_snapshots = false;
  refresh_details = true;
  detail_tool_id = detail_tool_id;
  force_detail_refresh = force;
  detail_refresh_id = detail_refresh_id;
  detail_priority = detail_priority;
  detail_trigger = detail_trigger;
}

pub record StopResult : Type 0 where
  pub stopped : Bool  -- the field `ok`
  pub changed : Bool
  pub reason : String

pub record StagedMedia : Type 0 where
  pub staged_media_id : String
  pub mime : String
  pub path_hint : String
  pub relative_path : String
  pub staged_path : String
  pub expires_at : String
  pub size : ℕ

pub record StageError : Type 0 where
  pub code : String
  pub reason : String

-- What the handling of one command gets from outside: how the writing of each store and of each
-- message ends, and what processes and files do. `system_id` and `allow_first_controller_bind` are
-- the configuration's.
pub record Host : Type 0 where
  pub system_id : String
  pub allow_first_controller_bind : Bool
  pub message_written : Event → Result String (Unit {0})
  pub controllers_written : Result String (Unit {0})
  pub whitelist_written : Result String (Unit {0})
  pub std : Std
  pub stop_process : ℕ → StopResult
  pub restart_process : ℕ → Result String (Bool × Option ℕ)
  pub stage_media_attachment : MediaStage → Option String → Result StageError StagedMedia
  pub files : Files
  pub spawn_launch_target : PreparedLaunch → Result String (Option ℕ)

pub record Session : Type 0 where
  pub wire : Wire
  pub whitelist : ToolWhitelistStore
  pub controllers : ControllerDevicesStore
  pub chats : ChatRuntime
  pub reports : ReportRuntime

-- what the handling of a command is
abbrev pub Handling : Type 0 → Type 0
Handling A = Exec Session String A

-- `send_event(...).await?`
unfoldable pub send : Host → Option String → String → List (String × Value) → Handling (Unit {0})
send host trace_id event_type list s =
    let (outcome, wire) =
      send_event host.message_written host.system_id event_type trace_id (json list) s.wire in
    (outcome, record s { wire = wire })

-- A call on a part of the session, whose error the caller looks at.
unfoldable pub on_whitelist :
    {A : Type 0} → Exec ToolWhitelistStore String A → Handling (Result String A)
on_whitelist m s =
    let (outcome, whitelist) = m s.whitelist in (ok outcome, record s { whitelist = whitelist })

unfoldable pub on_controllers :
    {A : Type 0} → Exec ControllerDevicesStore String A → Handling (Result String A)
on_controllers m s =
    let (outcome, controllers) = m s.controllers in
    (ok outcome, record s { controllers = controllers })

unfoldable pub on_chats : {A : Type 0} → (ChatRuntime → A × ChatRuntime) → Handling A
on_chats m s = let (outcome, chats) = m s.chats in (ok outcome, record s { chats = chats })

unfoldable pub on_reports : {A : Type 0} → (ReportRuntime → A × ReportRuntime) → Handling A
on_reports m s =
    let (outcome, reports) = m s.reports in (ok outcome, record s { reports = reports })

-- `ok`, `changed` and `reason` of an answer
pub record Answer : Type 0 where
  pub is_done : Bool
  pub changed : Bool
  pub reason : String

abbrev pub done : Bool → Answer
done changed = record { is_done = true; changed = changed; reason = "" }

abbrev pub failed : String → Answer
failed reason = record { is_done = false; changed = false; reason = reason }

-- the `match` on the result of a store, with what its error is called
abbrev pub answer_of : String → Result String Bool → Answer
answer_of what (ok changed) = done changed
answer_of what (err e) = failed (what <> e)
