-- ===== src/Sidecar/Session/Reports/Tests.antt =====
-- The theorems on a report of three bytes, the letter h and the two of é, which come in two reads, and
-- on a report in a workspace.
use your_connector.Common.{
  ℕ, suc, ◌≤◌, ◌≡◌, refl, Option, none, some, List, [], ◌∷◌, length, eqb, if◌then◌else◌, arith,
}
use your_connector.Sidecar.Session.Reports.Chunks.{
  Utf8, valid, invalid, Outcome, Turn, reads, ends, send_chunks,
}
use your_connector.Sidecar.Session.Reports.Bytes.{Completes, bytes_read}
use your_connector.Sidecar.Session.Reports.Complete.{nothing_sent, report_sent}
use your_connector.Common.{true, ◌<>◌, ◌==◌, string_eq, ok}
use your_connector.Common.Text.{trim}
use your_connector.Common.Text.Affix
use your_connector.Sidecar.Control.Fields.{eq_ignore_ascii_case}
use your_connector.Sidecar.Session.Launch.{is_below, is_in_roots}
use your_connector.Sidecar.Session.Reports.Allowed.{IsAllowed, validate_report_path-IsAllowed}
use your_connector.Sidecar.Session.Reports.Paths.{
  ReportFiles, ValidatedPath, normalize_report_request_path, is_markdown_file_path,
  is_sensitive_rule_markdown_path, candidates, directories, resolve_report_allowed_roots,
  derive_openclaw_allowed_roots, parse_extra_allowed_roots, validate_report_path,
}
use your_connector.Sidecar.Session.Tool.{Std, ToolRuntimePayload}

abbrev after_one : Utf8 → Utf8
after_one valid = valid
after_one (invalid n l) = invalid (suc n) l

-- a text is in order unless it stops after 195, the first byte of é
unfoldable ends_whole : List ℕ → Utf8
ends_whole [] = valid
ends_whole (b ∷ []) = if eqb b 195 then invalid 0 none else valid
ends_whole (b ∷ c ∷ bytes) = after_one (ends_whole (c ∷ bytes))

after_one_bounded :
    (u : Utf8) (bytes : List ℕ) (b : ℕ)
    → ((n : ℕ) (l : Option ℕ) → u ≡ invalid n l → n ≤ length bytes)
    → (n : ℕ) (l : Option ℕ) → after_one u ≡ invalid n l
    → n ≤ length (b ∷ bytes)
after_one_bounded valid bytes b bounded n l e = absurd cc
after_one_bounded (invalid m k) bytes b bounded n l e = ground (arith, e, bounded m k refl)

ends_whole_bounded :
    (bytes : List ℕ) (n : ℕ) (l : Option ℕ) → ends_whole bytes ≡ invalid n l → n ≤ length bytes
unfolding ends_whole
ends_whole_bounded [] n l e = absurd cc
ends_whole_bounded (b ∷ []) n l e = ground (arith, e)
ends_whole_bounded (b ∷ c ∷ bytes) n l e =
    after_one_bounded (ends_whole (c ∷ bytes)) (c ∷ bytes) b (ends_whole_bounded (c ∷ bytes)) n l e

abbrev two_reads : List Turn
two_reads = reads 104 (195 ∷ []) ∷ reads 169 [] ∷ ends ∷ []

report_sent_example :
    (outcome : Outcome) × (send_chunks ends_whole two_reads nothing_sent ≡ some outcome)
    × Completes (bytes_read two_reads) (some outcome)
report_sent_example = report_sent ends_whole ends_whole_bounded two_reads refl

-- a machine with one workspace, in which every file is one byte long
abbrev files : ReportFiles
files = record {
  canonicalize = λ path. ok (if path == "/w/a.md" then "w" ∷ "a.md" ∷ [] else "w" ∷ []);
  is_dir = λ path. true;
  metadata = λ path. ok (record { is_file = true; len = 1 });
  join = λ dir path. dir <> "/" <> path;
  extension = λ path. some "md";
  home = none;
  report_roots = [];
}

abbrev std : Std
std = record { to_lowercase = λ s. s; to_ascii_lowercase = λ s. s }

abbrev tool : ToolRuntimePayload
tool = record {
  tool_id = "codex_1";
  name = "Codex";
  vendor = "OpenAI";
  pid = none;
  source = none;
  workspace_dir = some "/w";
}

abbrev validated : ValidatedPath
validated = record { path = "w" ∷ "a.md" ∷ []; bytes_total = 1 }

validate_report_path-IsAllowed_example : IsAllowed std files tool "/w/a.md" validated
unfolding validate_report_path normalize_report_request_path is_markdown_file_path
    is_sensitive_rule_markdown_path resolve_report_allowed_roots candidates directories
    derive_openclaw_allowed_roots parse_extra_allowed_roots is_in_roots is_below Affix.starts_with
    Affix.contains eq_ignore_ascii_case trim string_eq
validate_report_path-IsAllowed_example =
    validate_report_path-IsAllowed std files tool "/w/a.md" validated refl
