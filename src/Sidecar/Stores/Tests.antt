-- ===== src/Sidecar/Stores/Tests.antt =====
-- The theorems on the stores at concrete ones.
use your_connector.Common.{
  List, ◌≡◌, ◌≤◌, ◌==◌, ◌&&◌, not, refl, true, false, none, some, [], ◌∷◌, ok, err, string_eq,
  arith,
}
use your_connector.Common.HashSet
use your_connector.Common.Text.{trim, is_empty}
use your_connector.Common.Text.Affix
use your_connector.Sidecar.Stores.Controllers.{rebind, authorize_or_bind, save}
use your_connector.Sidecar.Stores.Controllers.Bound.{
  Change, attempts, rebinds, named_last, Attempt, attempt, is_allowed, one_controller,
  rebind_unsaved,
}
use your_connector.Sidecar.Stores.Identity.{openclaw_identity_hash}
use your_connector.Sidecar.Stores.Whitelist.{
  ToolWhitelistStore, openclaw_hashes, contains_compatible, remove,
}
use your_connector.Sidecar.Stores.Whitelist.Gone.{remove_gone}
use your_connector.Sidecar.Stores.Whitelist.Single.{
  openclaw_count, adds, removes, changes, changes_single,
}

abbrev one_tool : ToolWhitelistStore
one_tool = record {
  path = some "whitelist.json";
  ids = "openclaw_a1b2c3d4e5f6_p10" ∷ "codex_1" ∷ [];
}

one_tool_openclaw : openclaw_count one_tool.ids ≡ 1
unfolding openclaw_hashes openclaw_identity_hash Affix.strip_prefix Affix.strip_suffix
    Affix.rsplit_once Affix.all_digits trim string_eq
one_tool_openclaw = refl

one_tool_count : openclaw_count one_tool.ids ≤ 1
one_tool_count = omega (arith, one_tool_openclaw)

changes_single_example :
    openclaw_count
      (changes one_tool
        (adds (ok tt) "openclaw_000000000000_p11" ∷ removes (err "disk full") "codex_1" ∷ [])).ids
    ≤ 1
changes_single_example =
    changes_single one_tool
      (adds (ok tt) "openclaw_000000000000_p11" ∷ removes (err "disk full") "codex_1" ∷ [])
      one_tool_count

remove_gone_example :
    contains_compatible
      (remove (err "disk full") "openclaw_a1b2c3d4e5f6_p12" one_tool).1
      "openclaw_a1b2c3d4e5f6_p12"
    ≡ false
remove_gone_example =
    remove_gone (err "disk full") "openclaw_a1b2c3d4e5f6_p12" one_tool one_tool_count

abbrev from_phone : Attempt
from_phone = record {
  written = ok tt;
  client_type = "app";
  device_id = " phone";
  allow_first_bind = true;
}

abbrev from_tablet : Attempt
from_tablet = record {
  written = ok tt;
  client_type = "app";
  device_id = "tablet";
  allow_first_bind = true;
}

abbrev in_between : List Change
in_between = attempts from_tablet ∷ rebinds (ok tt) "tablet " ∷ rebinds (ok tt) "" ∷ []

one_controller_example : trim "tablet" ≡ named_last (trim " phone") in_between
unfolding authorize_or_bind rebind save trim HashSet.insert HashSet.contains string_eq
one_controller_example = one_controller none from_phone in_between from_tablet refl refl

rebind_unsaved_example :
    ((rebind
        (err "disk full")
        "tablet"
        (record { path = some "controllers.json"; ids = "phone" ∷ [] })).0
      ≡ err "disk full")
    × (is_allowed
          (attempt from_phone
            (rebind
              (err "disk full")
              "tablet"
              (record { path = some "controllers.json"; ids = "phone" ∷ [] })).1).0
        ≡ (from_phone.client_type == "app"
            && not (is_empty (trim from_phone.device_id))
            && trim from_phone.device_id == trim "tablet"))
unfolding trim HashSet.contains string_eq
rebind_unsaved_example =
    rebind_unsaved "disk full" "tablet" "controllers.json" ("phone" ∷ []) from_phone refl refl
