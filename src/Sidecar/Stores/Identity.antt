-- ===== src/Sidecar/Stores/Identity.antt =====
-- services/sidecar/src/stores.rs: the part of a tool's id by which OpenClaw is known
use your_connector.Common.{◌&&◌, not, Option, none, some, String, if◌then◌else◌}
use your_connector.Common.Text.{trim, is_empty}
use your_connector.Common.Text.Affix.{strip_prefix, strip_suffix, rsplit_once, all_digits}

-- the form with a process id
abbrev hash_of_pid : Option (String × String) → Option String
hash_of_pid none = none
hash_of_pid (some (hash, pid_text)) =
    if not (is_empty (trim hash)) && not (is_empty (trim pid_text)) && all_digits pid_text
    then some hash
    else none

-- the form of the gateway; if its hash is blank the other form is tried
abbrev hash_of_rest : Option String → Option String → Option String
hash_of_rest none next = next
hash_of_rest (some hash) next = if is_empty (trim hash) then next else some hash

unfoldable pub openclaw_identity_hash : String → Option String
openclaw_identity_hash tool_id = elim (strip_prefix "openclaw_" tool_id) [
  | none ↦ none
  | some rest ↦ hash_of_rest (strip_suffix "_gw" rest) (hash_of_pid (rsplit_once "_p" rest))
]
