-- ===== src/Sidecar/Session/Tool.antt =====
-- protocol/rust/src/lib.rs and services/sidecar/src/tooling/adapters: a tool, with the fields that
-- the handling of commands reads, and what kind of tool it is
use your_connector.Common.{
  ℕ, ◌||◌, Bool, true, false, Option, none, some, List, [], ◌∷◌, String, ◌==◌, string_eq,
  if◌then◌else◌,
}
use your_connector.Common.Text.Affix

pub record ToolRuntimePayload : Type 0 where
  pub tool_id : String
  pub name : String
  pub vendor : String
  pub pid : Option ℕ
  pub source : Option String
  pub workspace_dir : Option String

abbrev is_fallback_source : Option String → Bool
is_fallback_source none = false
is_fallback_source (some source) = source == "fallback"

-- `is_fallback_tool` of session/snapshots.rs
unfoldable pub is_fallback_tool : ToolRuntimePayload → Bool
is_fallback_tool tool =
    if tool.tool_id == "tool_local" then true else is_fallback_source tool.source

-- `iter().find(|tool| tool.tool_id == tool_id)`
unfoldable pub find_tool : String → List ToolRuntimePayload → Option ToolRuntimePayload
find_tool tool_id [] = none
find_tool tool_id (tool ∷ tools) =
    let rest = find_tool tool_id tools in if tool.tool_id == tool_id then some tool else rest

-- two functions of the standard library
pub record Std : Type 0 where
  pub to_lowercase : String → String
  pub to_ascii_lowercase : String → String

-- `matches_tool` of openclaw.rs, opencode.rs, codex.rs and claude_code.rs
unfoldable pub is_openclaw_tool : Std → ToolRuntimePayload → Bool
is_openclaw_tool std tool =
    Affix.starts_with "openclaw_" (std.to_lowercase tool.tool_id)
    || Affix.contains "openclaw" (std.to_lowercase tool.name)
    || Affix.contains "openclaw" (std.to_lowercase tool.vendor)

unfoldable pub is_opencode_tool : Std → ToolRuntimePayload → Bool
is_opencode_tool std tool =
    Affix.starts_with "opencode_" (std.to_lowercase tool.tool_id)
    || Affix.contains "opencode" (std.to_lowercase tool.name)
    || Affix.contains "opencode" (std.to_lowercase tool.vendor)

unfoldable pub is_codex_tool : Std → ToolRuntimePayload → Bool
is_codex_tool std tool =
    Affix.starts_with "codex_" (std.to_ascii_lowercase tool.tool_id)
    || Affix.contains "codex" (std.to_ascii_lowercase tool.name)
    || Affix.contains "openai" (std.to_ascii_lowercase tool.vendor)

unfoldable pub is_claude_tool : Std → ToolRuntimePayload → Bool
is_claude_tool std tool =
    Affix.starts_with "claude_code_" (std.to_ascii_lowercase tool.tool_id)
    || Affix.contains "claude code" (std.to_ascii_lowercase tool.name)
    || std.to_ascii_lowercase tool.name == "claude"
    || Affix.contains "anthropic" (std.to_ascii_lowercase tool.vendor)
