-- ===== src/Sidecar/Session/Tests.antt =====
-- The theorems on a session at a concrete one, with the phone as its controller.
use your_connector.Common.{
  ◌≡◌, ◌≤◌, ◌<>◌, refl, true, false, none, some, List, [], ◌∷◌, ok, err, string_eq, arith,
  if◌then◌else◌,
}
use your_connector.Common.HashMap
use your_connector.Common.HashSet
use your_connector.Common.Text.{trim, is_empty}
use your_connector.Common.Text.Affix
use your_connector.Sidecar.Control.{
  SidecarCommandEnvelope, rebind_controller, ChatTarget, Launch, background, tool_chat_request,
}
use your_connector.Sidecar.Control.Tests
use your_connector.Sidecar.Session.Chats.{ChatRequestInput, ChatRuntime, busy, start_request}
use your_connector.Sidecar.Session.Chats.Exclusive.{
  start, cancel, steps, owner, holds, owner-steps, one_chat,
}
use your_connector.Sidecar.Session.Command.Answered.{IsAnswered, chat_request-IsAnswered}
use your_connector.Sidecar.Session.Command.Context.{Host, Session, default_outcome, command}
use your_connector.Sidecar.Session.Command.Handle.{handle_sidecar_command}
use your_connector.Sidecar.Session.Command.Kept.{
  Received, handle_all, IsSingle, handle_all-IsSingle, running_chat_kept,
}
use your_connector.Sidecar.Session.Command.Rebound.{IsSole, rebound-IsSole}
use your_connector.Sidecar.Session.Command.Requests
use your_connector.Sidecar.Session.Command.Refused.{IsRefusal, why, answered, stranger_refused}
use your_connector.Sidecar.Session.Command.Strangers.{relayed_stranger_refused}
use your_connector.Sidecar.Session.Details.{
  DetailsRefreshIntent, enqueue_details_refresh, enqueue_counted, dispatch_details_refresh, full,
}
use your_connector.Sidecar.Session.Details.Latest.{
  DetailsStep, enqueues, dispatches, details_steps, details_step, start_details, latest_waits,
}
use your_connector.Sidecar.Session.Launch.{
  Files, PreparedLaunch, open_claw, prepare_launch_request, parse_launch_tool, hyphenate,
  canonicalize_launch_cwd, expand_tilde, is_in_roots, resolve_launch_allowed_roots, workspace_roots,
  listed_roots, is_below,
}
use your_connector.Sidecar.Session.Launch.Roots.{Launched, launch_in_root}
use your_connector.Sidecar.Session.Queue.{
  fifo_policy, queue_key_eq, enqueue, enqueue_latest, policy_for, pop_next, pop_latest,
  update_latest,
}
use your_connector.Sidecar.Session.Tool.{ToolRuntimePayload, Std}
use your_connector.Sidecar.Session.Transport.{Event, next}
use your_connector.Sidecar.Stores.Whitelist.{openclaw_hashes}

abbrev std : Std
std = record { to_lowercase = λ s. s; to_ascii_lowercase = λ s. s }

-- a machine on which every path is a directory, and the home directory is "/home/me"
abbrev files : Files
files = record {
  canonicalize = λ path. ok (path ∷ []);
  is_dir = λ path. true;
  home = some "/home/me";
  extra_roots = [];
}

abbrev host : Host
host = record {
  system_id = "mac";
  allow_first_controller_bind = true;
  message_written = λ event. ok tt;
  controllers_written = ok tt;
  whitelist_written = err "disk full";
  std = std;
  stop_process = λ pid. record { stopped = true; changed = true; reason = "" };
  restart_process = λ pid. err "no such process";
  stage_media_attachment = λ m dir. err (record { code = "MEDIA_TOO_LARGE"; reason = "" });
  files = files;
  spawn_launch_target = λ p. ok none;
}

abbrev tool : ToolRuntimePayload
tool = record {
  tool_id = "codex_1";
  name = "Codex";
  vendor = "OpenAI";
  pid = some 7;
  source = none;
  workspace_dir = none;
}

abbrev target : ChatTarget
target = record {
  tool_id = "codex_1";
  conversation_key = "c";
  request_id = "r1";
  queue_item_id = "";
}

abbrev hello : ChatRequestInput
hello = record { target = target; message = "hello"; content = [] }

abbrev no_chats : ChatRuntime
no_chats = record { active_by_conversation = HashMap.empty; spawned = [] }

abbrev chatting : ChatRuntime
chatting = (start_request hello tool none no_chats).1

one_chat_example :
    start_request hello tool none (steps (cancel target ∷ []) chatting)
    ≡ (busy ("会话中已有进行中的请求：" <> "r1"), steps (cancel target ∷ []) chatting)
unfolding start_request HashMap.get
one_chat_example =
    one_chat hello hello tool tool none none no_chats (cancel target ∷ []) refl refl refl

owner-steps_example :
    owner "c" (steps (start hello tool none ∷ cancel target ∷ []) no_chats)
    ≡ holds "c" (start hello tool none ∷ cancel target ∷ []) (owner "c" no_chats)
owner-steps_example = owner-steps "c" (start hello tool none ∷ cancel target ∷ []) no_chats

abbrev session : Session
session = record {
  wire = record { seq = 4; sent = [] };
  whitelist = record { path = some "whitelist.json"; ids = [] };
  controllers = record { path = some "controllers.json"; ids = "phone" ∷ [] };
  chats = no_chats;
  reports = record { active_by_conversation = HashMap.empty; spawned = [] };
}

abbrev chat_of_stranger : SidecarCommandEnvelope
chat_of_stranger = record Tests.command { command = tool_chat_request target "hello" [] }

stranger_refused_example :
    (event : Event) × IsRefusal chat_of_stranger.command (why "app" "tablet") event
    × (event.system_id ≡ host.system_id)
    × (event.seq ≡ next 4)
    × (event.trace_id ≡ (if is_empty (trim "trc_t") then none else some (trim "trc_t")))
    × (handle_sidecar_command host (tool ∷ []) chat_of_stranger session
        ≡ answered (host.message_written event) event session)
unfolding HashSet.contains trim string_eq
stranger_refused_example = stranger_refused host (tool ∷ []) chat_of_stranger session refl refl refl

relayed_stranger_refused_example :
    (handle_sidecar_command host (tool ∷ []) Tests.command session).1 ≡ record session {
      wire = (handle_sidecar_command host (tool ∷ []) Tests.command session).1.wire;
    }
unfolding HashSet.contains trim string_eq
relayed_stranger_refused_example =
    relayed_stranger_refused Tests.fresh "mac" "app" "tablet" Tests.written Tests.passed
      Tests.passed "u" Tests.command host (tool ∷ []) session Tests.written_passes (λ k. refl)
      Tests.passed_reads refl refl refl

abbrev received : List Received
received =
    record { host = host; tools = tool ∷ []; envelope = Tests.command }
    ∷ record {
      host = host;
      tools = tool ∷ [];
      envelope = record Tests.command {
        command = tool_chat_request target "hello" [];
        source_device_id = "phone";
      };
    }
    ∷ []

session-IsSingle : IsSingle session
unfolding openclaw_hashes
session-IsSingle = record { openclaw = omega arith; controller = omega arith }

handle_all-IsSingle_example : IsSingle (handle_all received session)
handle_all-IsSingle_example = handle_all-IsSingle received session session-IsSingle

running_chat_kept_example :
    owner "c" (handle_all received (record session { chats = chatting })).chats ≡ some "r1"
unfolding owner start_request HashMap.get HashMap.insert string_eq
running_chat_kept_example =
    running_chat_kept "c" "r1" received (record session { chats = chatting }) refl

abbrev launch : Launch
launch = record { tool_name = "claw"; cwd = "/home/me"; request_id = "r2"; conversation_key = "c" }

abbrev prepared : PreparedLaunch
prepared = record { tool = open_claw; cwd = "/home/me" ∷ [] }

launch_in_root_example : Launched std files launch [] prepared
unfolding prepare_launch_request parse_launch_tool Affix.contains hyphenate trim string_eq
    canonicalize_launch_cwd expand_tilde is_in_roots resolve_launch_allowed_roots workspace_roots
    listed_roots is_below
launch_in_root_example = launch_in_root std files launch [] prepared refl

abbrev details : List DetailsStep
details =
    enqueues none true none background command
    ∷ enqueues none true none background command
    ∷ enqueues (some "codex_1") false none background command
    ∷ dispatches full
    ∷ []

abbrev waiting_intent : DetailsRefreshIntent
waiting_intent = record {
  generation = 3;
  target_tool_id = some "codex_1";
  force = false;
  refresh_id = none;
  priority = background;
  trigger = command;
  dropped_refreshes = 1;
}

latest_waits_example :
    (3 ≡ (details_steps details (start_details (fifo_policy 256))).latest_generation) × (1 ≤ 1)
unfolding details_steps details_step HashMap.get dispatch_details_refresh pop_next
    enqueue_details_refresh enqueue_counted enqueue policy_for queue_key_eq enqueue_latest
    HashMap.insert update_latest pop_latest HashMap.remove
latest_waits_example = latest_waits (fifo_policy 256) details waiting_intent refl

chat_request-IsAnswered_example :
    ((Requests.tool_chat_request host none (tool ∷ []) target "hello" [] session).0
      ≡ ok default_outcome)
    × IsAnswered host none target "hello" []
        (tool ∷ [])
        session
        (Requests.tool_chat_request host none (tool ∷ []) target "hello" [] session).1
chat_request-IsAnswered_example =
    chat_request-IsAnswered host none (tool ∷ []) target "hello" [] session (λ event. refl)

-- the tablet makes itself the controller
abbrev takeover : SidecarCommandEnvelope
takeover = record Tests.command { command = rebind_controller "tablet" }

rebound-IsSole_example :
    IsSole (trim "tablet") (handle_sidecar_command host (tool ∷ []) takeover session).1.controllers
unfolding trim string_eq
rebound-IsSole_example = rebound-IsSole host (tool ∷ []) takeover "tablet" session refl refl refl
