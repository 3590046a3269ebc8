-- ===== src/Sidecar/Session/Reports/Paths.antt =====
-- services/sidecar/src/session/loop/report.rs: which file a report may be read from. A path that was
-- asked for is a text, and a canonical one the list of its components.
use Prim.Native.Char.{code}
use your_connector.Common.{
  ℕ, ◌||◌, ◌&&◌, not, Bool, true, false, Option, none, some, List, [], ◌∷◌, ◌++◌, String, ◌<>◌,
  Result, ok, err, ◌>>=◌, ◌>>◌, refuse, map_err, ◌==◌, string_eq, eqb, if◌then◌else◌,
}
use your_connector.Common.Text.{trim, is_empty, is_whitespace}
use your_connector.Common.Text.Affix
use your_connector.Sidecar.Control.Fields.{eq_ignore_ascii_case}
use your_connector.Sidecar.Session.Launch.{CanonicalPath, is_in_roots}
use your_connector.Sidecar.Session.Tool.{Std, ToolRuntimePayload}

-- `fs::Metadata`
pub record Metadata : Type 0 where
  pub is_file : Bool
  pub len : ℕ

-- `fs`, `env` and the methods of `Path`: `report_roots` is what `split_paths` makes of the variable
-- with more roots
pub record ReportFiles : Type 0 where
  pub canonicalize : String → Result String CanonicalPath
  pub is_dir : CanonicalPath → Bool
  pub metadata : CanonicalPath → Result String Metadata
  pub join : String → String → String
  pub extension : String → Option String
  pub home : Option String
  pub report_roots : List String

abbrev under_home : ReportFiles → String → Option String → Option String → String
under_home files path (some relative) (some home) =
    if is_empty (trim home) then path else files.join home relative
under_home files path _ _ = path

unfoldable pub normalize_report_request_path : ReportFiles → String → String
normalize_report_request_path files file_path =
    under_home files (trim file_path) (Affix.strip_prefix "~/" (trim file_path)) files.home

abbrev is_md : Option String → Bool
is_md none = false
is_md (some ext) = eq_ignore_ascii_case ext "md"

unfoldable pub is_markdown_file_path : ReportFiles → String → Bool
is_markdown_file_path files path = is_md (files.extension path)

-- `file_name`, blank for a path without one
abbrev file_name : CanonicalPath → String
file_name [] = ""
file_name (name ∷ []) = name
file_name (dir ∷ name ∷ path) = file_name (name ∷ path)

abbrev display : CanonicalPath → String
display [] = ""
display (name ∷ path) = "/" <> name <> display path

abbrev is_sensitive_name : String → Bool
is_sensitive_name name =
    name == "agents.md"
    || name == "tools.md"
    || name == "identity.md"
    || name == "user.md"
    || name == "heartbeat.md"
    || name == "bootstrap.md"
    || name == "memory.md"
    || name == "soul.md"

unfoldable pub is_sensitive_rule_markdown_path : Std → CanonicalPath → Bool
is_sensitive_rule_markdown_path std path =
    let lowered = std.to_ascii_lowercase (display path) in
    is_sensitive_name (std.to_ascii_lowercase (file_name path))
    && not (
        Affix.contains "/output/" lowered
        || Affix.contains "/reports/" lowered
        || Affix.contains "/report/" lowered)

-- what stands after the first `marker`
unfoldable pub after_marker : String → String → Option String
after_marker marker String.[] = Affix.strip_prefix marker String.[]
after_marker marker (String.◌∷◌ c s) =
    let rest = after_marker marker s in
    elim (Affix.strip_prefix marker (String.◌∷◌ c s)) [ some value ↦ some value | none ↦ rest ]

-- the first part of the split at blanks, commas and semicolons
unfoldable pub first_word : String → String
first_word String.[] = String.[]
first_word (String.◌∷◌ c s) =
    let rest = first_word s in
    if is_whitespace (code c) || eqb (code c) b',' || eqb (code c) b';'
    then String.[]
    else String.◌∷◌ c rest

abbrev or_default : Option String → String
or_default none = "default"
or_default (some value) =
    if is_empty (trim (first_word value)) then "default" else trim (first_word value)

abbrev or_blank : Option String → String
or_blank none = ""
or_blank (some s) = s

unfoldable pub parse_openclaw_profile_key_from_source : Option String → String
parse_openclaw_profile_key_from_source source =
    or_default (after_marker "profile=" (or_blank source))

abbrev state_dir_name : String → String
state_dir_name profile =
    if profile == "dev"
    then ".openclaw-dev"
    else if is_empty profile || profile == "default"
    then ".openclaw"
    else ".openclaw-" <> profile

unfoldable pub resolve_openclaw_state_dir : ReportFiles → String → Option String
resolve_openclaw_state_dir files profile_key = elim files.home [
  | none ↦ none
  | some home ↦
      if is_empty (trim home)
      then none
      else some (files.join (trim home) (state_dir_name (trim profile_key)))
]

-- `is_openclaw_tool` of report.rs
abbrev is_openclaw : Std → ToolRuntimePayload → Bool
is_openclaw std tool =
    Affix.starts_with "openclaw_" (std.to_ascii_lowercase tool.tool_id)
    || Affix.contains "openclaw" (std.to_ascii_lowercase tool.name)
    || Affix.contains "openclaw" (std.to_ascii_lowercase tool.vendor)

abbrev agents_of : ReportFiles → Option String → List String
agents_of files none = []
agents_of files (some dir) = files.join dir "agents" ∷ []

unfoldable pub derive_openclaw_allowed_roots : Std → ReportFiles → ToolRuntimePayload → List String
derive_openclaw_allowed_roots std files tool =
    if is_openclaw std tool
    then agents_of files
        (resolve_openclaw_state_dir files (parse_openclaw_profile_key_from_source tool.source))
    else []

abbrev workspace_candidate : ReportFiles → Option String → List String
workspace_candidate files none = []
workspace_candidate files (some workspace) =
    if is_empty (trim workspace)
    then []
    else normalize_report_request_path files (trim workspace) ∷ []

unfoldable pub parse_extra_allowed_roots : ReportFiles → List String → List String
parse_extra_allowed_roots files [] = []
parse_extra_allowed_roots files (value ∷ more) =
    let rest = parse_extra_allowed_roots files more in
    let path = normalize_report_request_path files value in
    if is_empty path then rest else path ∷ rest

unfoldable pub candidates : Std → ReportFiles → ToolRuntimePayload → List String
candidates std files tool =
    workspace_candidate files tool.workspace_dir
    ++ parse_extra_allowed_roots files files.report_roots
    ++ derive_openclaw_allowed_roots std files tool

-- Duplicates are dropped in the source; only whether a root fits is looked at.
unfoldable pub directories : ReportFiles → List String → List CanonicalPath
directories files [] = []
directories files (root ∷ roots) =
    let rest = directories files roots in
    elim (files.canonicalize root) [
      | ok path ↦ if files.is_dir path then path ∷ rest else rest
      | err e ↦ rest
    ]

abbrev pub is_none : List CanonicalPath → Bool
is_none [] = true
is_none (path ∷ paths) = false

unfoldable pub resolve_report_allowed_roots :
    Std → ReportFiles → ToolRuntimePayload → Result String (List CanonicalPath)
resolve_report_allowed_roots std files tool = do
  let roots = directories files (candidates std files tool)
  refuse (is_none roots) "工具可访问目录不可用，无法读取报告。"
  ok roots

pub record ValidatedPath : Type 0 where
  pub path : CanonicalPath
  pub bytes_total : ℕ

-- The reason of a failure; the error is always `Failed`.
unfoldable pub validate_report_path :
    Std → ReportFiles → ToolRuntimePayload → String → Result String ValidatedPath
validate_report_path std files tool file_path = do
  let requested = normalize_report_request_path files file_path
  refuse (not (Affix.starts_with "/" requested)) "报告路径必须为绝对路径。"
  refuse (not (is_markdown_file_path files requested)) "仅支持读取 .md 报告文件。"
  canonical_file ← map_err (λ e. "报告文件不存在或不可访问: " <> e) (files.canonicalize requested)
  refuse (is_sensitive_rule_markdown_path std canonical_file) "该 Markdown 疑似系统规则文件，已禁止通过报告预览读取。"
  allowed_roots ← resolve_report_allowed_roots std files tool
  refuse (not (is_in_roots canonical_file allowed_roots))
      "仅允许读取当前工具工作区、OpenClaw 产出目录或已配置白名单目录内的报告文件。"
  metadata ← map_err (λ e. "读取报告文件元数据失败: " <> e) (files.metadata canonical_file)
  refuse (not metadata.is_file) "目标路径不是文件，无法读取报告。"
  ok (record { path = canonical_file; bytes_total = metadata.len })
