-- ===== src/Sidecar/Session/Command/Kept.antt =====
-- What every command keeps of the session.
use your_connector.Common.{◌≡◌, ◌≤◌, refl, ◌∙◌, some, List, [], ◌∷◌, String, length}
use your_connector.Sidecar.Control.{SidecarCommandEnvelope}
use your_connector.Sidecar.Session.Chats.Exclusive.{owner, owner-start, owner-cancel, step, hold}
use your_connector.Sidecar.Session.Command.Context.{
  Host, Session, on_whitelist, on_controllers, on_chats, on_reports,
}
use your_connector.Sidecar.Session.Command.Handle.{handle_sidecar_command}
use your_connector.Sidecar.Session.Command.Keeping.{IsKeptByCalls, handle_sidecar_command-Keeps}
use your_connector.Sidecar.Session.Tool.{ToolRuntimePayload}
use your_connector.Sidecar.Stores.Controllers.Bound.{attempt_single, rebind_single}
use your_connector.Sidecar.Stores.Whitelist.Single.{
  openclaw_count, change_single, change, adds, removes, clears,
}

-- A command as the session gets it.
pub record Received : Type 0 where
  pub host : Host
  pub tools : List ToolRuntimePayload
  pub envelope : SidecarCommandEnvelope

-- the session after the commands, in turn
unfoldable pub handle_all : List Received → Session → Session
handle_all [] s = s
handle_all (r ∷ more) s = handle_all more (handle_sidecar_command r.host r.tools r.envelope s).1

handle_all-keeps :
    (P : Session → Type 0)
    → ((host : Host) → IsKeptByCalls host P)
    → (list : List Received) (s : Session) → P s
    → P (handle_all list s)
unfolding handle_all
handle_all-keeps P calls [] s holds = holds
handle_all-keeps P calls (r ∷ more) s holds =
    handle_all-keeps P calls more _
      ((handle_sidecar_command-Keeps r.host P (calls r.host) r.tools r.envelope).at s holds)

-- One OpenClaw tool in the whitelist at most, and one controller at most.
pub record IsSingle (s : Session) : Type 0 where
  pub openclaw : openclaw_count s.whitelist.ids ≤ 1
  pub controller : length s.controllers.ids ≤ 1

IsSingle-calls : (host : Host) → IsKeptByCalls host IsSingle
unfolding on_whitelist on_controllers on_chats on_reports change
IsSingle-calls host = record {
  wire = λ s w single. record { openclaw = single.openclaw; controller = single.controller };
  add = λ tool_id. record {
    at = λ s single. record {
      openclaw = change_single s.whitelist (adds host.whitelist_written tool_id) single.openclaw;
      controller = single.controller;
    };
  };
  remove = λ tool_id. record {
    at = λ s single. record {
      openclaw = change_single s.whitelist (removes host.whitelist_written tool_id) single.openclaw;
      controller = single.controller;
    };
  };
  clear_all = record {
    at = λ s single. record {
      openclaw = change_single s.whitelist (clears host.whitelist_written) single.openclaw;
      controller = single.controller;
    };
  };
  bind = λ client_type device_id. record {
    at = λ s single. record {
      openclaw = single.openclaw;
      controller =
          attempt_single
            (record {
              written = host.controllers_written;
              client_type = client_type;
              device_id = device_id;
              allow_first_bind = host.allow_first_controller_bind;
            })
            s.controllers single.controller;
    };
  };
  bind_again = λ device_id. record {
    at = λ s single. record {
      openclaw = single.openclaw;
      controller = rebind_single host.controllers_written device_id s.controllers single.controller;
    };
  };
  start_chat = λ request tool trace_id. record {
    at = λ s single. record { openclaw = single.openclaw; controller = single.controller };
  };
  cancel_chat = λ cancel. record {
    at = λ s single. record { openclaw = single.openclaw; controller = single.controller };
  };
  start_report = λ request tool trace_id. record {
    at = λ s single. record { openclaw = single.openclaw; controller = single.controller };
  };
}

-- A session that has one OpenClaw tool in its whitelist at most and one controller at most still
-- has after any commands, from whomever, whatever files, processes and messages failed meanwhile.
pub handle_all-IsSingle :
    (list : List Received) (s : Session) → IsSingle s → IsSingle (handle_all list s)
handle_all-IsSingle = handle_all-keeps IsSingle IsSingle-calls

module _ (key holder : String) where
  abbrev IsHeld : Session → Type 0
  IsHeld s = owner key s.chats ≡ some holder

  IsHeld-calls : (host : Host) → IsKeptByCalls host IsHeld
  unfolding on_whitelist on_controllers on_chats on_reports step hold
  IsHeld-calls host = record {
    wire = λ s w held. held;
    add = λ tool_id. record { at = λ s held. held };
    remove = λ tool_id. record { at = λ s held. held };
    clear_all = record { at = λ s held. held };
    bind = λ client_type device_id. record { at = λ s held. held };
    bind_again = λ device_id. record { at = λ s held. held };
    start_chat = λ request tool trace_id. record {
      at = λ s held. owner-start key request tool trace_id s.chats ∙ rw held refl;
    };
    cancel_chat = λ cancel. record { at = λ s held. owner-cancel key cancel s.chats ∙ held };
    start_report = λ request tool trace_id. record { at = λ s held. held };
  }

-- A chat request that holds its conversation still holds it after any commands, from whomever: no
-- command ends it, also not its own cancellation, which waits for the task to end.
pub running_chat_kept :
    (key holder : String) (list : List Received) (s : Session)
    → owner key s.chats ≡ some holder
    → owner key (handle_all list s).chats ≡ some holder
running_chat_kept key holder = handle_all-keeps (IsHeld key holder) (IsHeld-calls key holder)
