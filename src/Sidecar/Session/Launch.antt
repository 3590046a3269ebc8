-- ===== src/Sidecar/Session/Launch.antt =====
-- services/sidecar/src/session/loop/command.rs: where a tool may be launched. A canonical path is
-- the list of its components, so `starts_with` compares whole components.
pub mod Roots
use Prim.Native.Char.{code}
use Prim.Native.String
use your_connector.Common.{
  ◌||◌, not, Bool, true, false, Option, none, some, List, [], ◌∷◌, ◌++◌, String, ◌<>◌, Result, ok,
  err, ◌>>=◌, ◌>>◌, or_fail, refuse, map_err, ◌==◌, string_eq, eqb, if◌then◌else◌,
}
use your_connector.Common.Text.{trim, is_empty}
use your_connector.Common.Text.Affix
use your_connector.Sidecar.Control.{Launch}
use your_connector.Sidecar.Session.Tool.{
  Std, ToolRuntimePayload, is_openclaw_tool, is_opencode_tool, is_codex_tool, is_claude_tool,
}

abbrev pub CanonicalPath : Type 0
CanonicalPath = List String

-- `Path::starts_with`: the second path is the first or lies below it
unfoldable pub is_below : CanonicalPath → CanonicalPath → Bool
is_below [] path = true
is_below (d ∷ root) [] = false
is_below (d ∷ root) (c ∷ path) = let rest = is_below root path in if c == d then rest else false

-- `fs` and `env`: `extra_roots` is what `split_paths` makes of YC_LAUNCH_ALLOWED_ROOTS, if it is set
pub record Files : Type 0 where
  pub canonicalize : String → Result String CanonicalPath
  pub is_dir : CanonicalPath → Bool
  pub home : Option String
  pub extra_roots : List String

pub data LaunchTool : Type 0 where
  open_claw open_code codex claude_code : LaunchTool

pub record PreparedLaunch : Type 0 where
  pub tool : LaunchTool
  pub cwd : CanonicalPath

-- `replace([' ', '_'], "-")`
unfoldable pub hyphenate : String → String
hyphenate String.[] = String.[]
hyphenate (String.◌∷◌ c s) =
    if eqb (code c) b' ' || eqb (code c) b'_'
    then String.◌∷◌ "-" (hyphenate s)
    else String.◌∷◌ c (hyphenate s)

unfoldable pub parse_launch_tool : Std → String → Option LaunchTool
parse_launch_tool std raw =
    let normalized = hyphenate (std.to_ascii_lowercase (trim raw)) in
    if Affix.contains "openclaw" normalized || normalized == "claw"
    then some open_claw
    else if Affix.contains "opencode" normalized || normalized == "open-code"
    then some open_code
    else if Affix.contains "codex" normalized
    then some codex
    else if Affix.contains "claude" normalized
    then some claude_code
    else none

-- `trim_end_matches('/')`
unfoldable pub trim_slashes : String → String
trim_slashes String.[] = String.[]
trim_slashes (String.◌∷◌ c s) =
    let rest = trim_slashes s in
    if is_empty rest
    then (if eqb (code c) b'/' then String.[] else String.◌∷◌ c String.[])
    else String.◌∷◌ c rest

abbrev under_home : String → Option String → Option String → String
under_home path (some suffix) (some home) =
    if is_empty (trim home) then path else trim_slashes home <> "/" <> suffix
under_home path _ _ = path

unfoldable pub expand_tilde : Files → String → String
expand_tilde files raw = under_home (trim raw) (Affix.strip_prefix "~/" (trim raw)) files.home

unfoldable pub canonicalize_launch_cwd : Files → String → Result String CanonicalPath
canonicalize_launch_cwd files raw = do
  let cwd = expand_tilde files raw
  refuse (is_empty (trim cwd)) "缺少目标目录，无法启动工具。"
  refuse (not (Affix.starts_with "/" (trim cwd))) "仅支持绝对路径目录启动。"
  canonical ← map_err (λ e. "目录不可访问或不存在: " <> e) (files.canonicalize (trim cwd))
  refuse (not (files.is_dir canonical)) "目标路径不是目录。"
  ok canonical

unfoldable pub tool_matches_launch_target : Std → LaunchTool → ToolRuntimePayload → Bool
tool_matches_launch_target std open_claw tool = is_openclaw_tool std tool
tool_matches_launch_target std open_code tool = is_opencode_tool std tool
tool_matches_launch_target std codex tool = is_codex_tool std tool
tool_matches_launch_target std claude_code tool = is_claude_tool std tool

-- a path that cannot be made canonical is left out
abbrev root_of : Result String CanonicalPath → List CanonicalPath
root_of (ok path) = path ∷ []
root_of (err e) = []

abbrev workspace_root : Files → Option String → List CanonicalPath
workspace_root files none = []
workspace_root files (some workspace) =
    if is_empty (trim workspace) then [] else root_of (files.canonicalize (trim workspace))

unfoldable pub workspace_roots :
    Std → Files → LaunchTool → List ToolRuntimePayload → List CanonicalPath
workspace_roots std files target [] = []
workspace_roots std files target (tool ∷ tools) =
    let rest = workspace_roots std files target tools in
    if tool_matches_launch_target std target tool
    then workspace_root files tool.workspace_dir ++ rest
    else rest

unfoldable pub listed_roots : Files → List String → List CanonicalPath
listed_roots files [] = []
listed_roots files (value ∷ more) = root_of (files.canonicalize value) ++ listed_roots files more

abbrev home_root : Files → Option String → List CanonicalPath
home_root files none = []
home_root files (some home) = if is_empty (trim home) then [] else root_of (files.canonicalize home)

-- The roots are sorted and without duplicates in the source; only whether one fits is looked at.
unfoldable pub resolve_launch_allowed_roots :
    Std → Files → List ToolRuntimePayload → LaunchTool → List CanonicalPath
resolve_launch_allowed_roots std files discovered_tools target =
    workspace_roots std files target discovered_tools
    ++ listed_roots files files.extra_roots
    ++ home_root files files.home

-- `allowed_roots.iter().any(|root| cwd.starts_with(root))`
unfoldable pub is_in_roots : CanonicalPath → List CanonicalPath → Bool
is_in_roots cwd [] = false
is_in_roots cwd (root ∷ roots) =
    let rest = is_in_roots cwd roots in if is_below root cwd then true else rest

unfoldable pub prepare_launch_request :
    Std → Files → Launch → List ToolRuntimePayload → Result String PreparedLaunch
prepare_launch_request std files request discovered_tools = do
  tool ←
      or_fail (parse_launch_tool std request.tool_name)
        "不支持的工具类型，仅支持 OpenClaw/OpenCode/Codex/Claude Code。"
  cwd ← canonicalize_launch_cwd files request.cwd
  refuse (not (is_in_roots cwd (resolve_launch_allowed_roots std files discovered_tools tool)))
      "目标目录不在授权范围内，请切换到工作区目录后重试。"
  ok (record { tool = tool; cwd = cwd })
