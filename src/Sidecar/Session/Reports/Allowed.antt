-- ===== src/Sidecar/Session/Reports/Allowed.antt =====
-- Where a report that may be read lies.
use your_connector.Common.{
  ◌≡◌, sym, ap, ◌∙◌, true, false, List, [], ◌∷◌, String, ok, subst, Result-cases, arith, Bool-cases,
  inl, inr,
}
use your_connector.Sidecar.Session.Launch.{CanonicalPath, is_below, is_in_roots}
use your_connector.Sidecar.Session.Launch.Roots.{IsMember, here, there, in_roots}
use your_connector.Sidecar.Session.Reports.Paths.{
  Metadata, ReportFiles, normalize_report_request_path, is_markdown_file_path,
  is_sensitive_rule_markdown_path, candidates, directories, resolve_report_allowed_roots,
  ValidatedPath, validate_report_path,
}
use your_connector.Sidecar.Session.Tool.{Std, ToolRuntimePayload}

-- The root is the canonical form of one of the candidates, and a directory.
pub record IsRootOf (files : ReportFiles) (list : List String) (root : CanonicalPath) : Type 0 where
  pub candidate : String
  pub listed : IsMember candidate list
  pub found : files.canonicalize candidate ≡ ok root
  pub directory : files.is_dir root ≡ true

IsRootOf-there :
    (files : ReportFiles) (c : String) (list : List String) (root : CanonicalPath)
    → IsRootOf files list root
    → IsRootOf files (c ∷ list) root
IsRootOf-there files c list root later = record {
  candidate = later.candidate;
  listed = there later.listed;
  found = later.found;
  directory = later.directory;
}

-- what is first in the list or is in the rest of it
IsRootOf-first :
    (files : ReportFiles) (c : String) (list : List String) (path root : CanonicalPath)
    (paths : List CanonicalPath)
    → files.canonicalize c ≡ ok path
    → files.is_dir path ≡ true
    → (IsMember root paths → IsRootOf files (c ∷ list) root)
    → IsMember root (path ∷ paths)
    → IsRootOf files (c ∷ list) root
IsRootOf-first files c list path root paths found directory rest here = record {
  candidate = c;
  listed = here;
  found = found;
  directory = directory;
}
IsRootOf-first files c list path root paths found directory rest (there later) = rest later

directories-IsRootOf :
    (files : ReportFiles) (list : List String) (root : CanonicalPath)
    → IsMember root (directories files list)
    → IsRootOf files list root
unfolding directories
directories-IsRootOf files [] root m = elim m [ ]
directories-IsRootOf files (c ∷ list) root m = elim (Result-cases (files.canonicalize c)) [
  | inr (e, missing) ↦
      IsRootOf-there files c list root
        (directories-IsRootOf files list root (rw (directories, missing) at m))
  | inl (path, found) ↦ elim (Bool-cases (files.is_dir path)) [
    | inr no_dir ↦
        IsRootOf-there files c list root
          (directories-IsRootOf files list root (rw (directories, found, no_dir) at m))
    | inl is_dir ↦
        IsRootOf-first files c list path root (directories files list) found is_dir
          (λ later. IsRootOf-there files c list root (directories-IsRootOf files list root later))
          (rw (directories, found, is_dir) at m)
  ]
]

-- what is required of a file that is read
pub record IsAllowed (std : Std) (files : ReportFiles) (tool : ToolRuntimePayload)
    (file_path : String) (v : ValidatedPath) : Type 0 where
  pub markdown : is_markdown_file_path files (normalize_report_request_path files file_path) ≡ true
  pub found : files.canonicalize (normalize_report_request_path files file_path) ≡ ok v.path
  pub harmless : is_sensitive_rule_markdown_path std v.path ≡ false
  pub root : CanonicalPath
  pub allowed : IsRootOf files (candidates std files tool) root
  pub inside : is_below root v.path ≡ true
  pub file : files.metadata v.path ≡ ok (record { is_file = true; len = v.bytes_total })

-- what the metadata are, field by field
abbrev ReadAs : ReportFiles → CanonicalPath → ValidatedPath → Metadata → Type 0
ReadAs files path v metadata =
    (path ≡ v.path) × (metadata.is_file ≡ true) × (metadata.len ≡ v.bytes_total)

file_of :
    (files : ReportFiles) (path : CanonicalPath) (v : ValidatedPath) (metadata : Metadata)
    → files.metadata path ≡ ok metadata
    → ReadAs files path v metadata
    → files.metadata v.path ≡ ok (record { is_file = true; len = v.bytes_total })
file_of files path v metadata read (same, file, len) =
    let at : files.metadata v.path ≡ ok metadata = ap files.metadata (sym same) ∙ read in
    at
    ∙ ap (λ b. ok (record { is_file = b; len = metadata.len })) file
    ∙ ap (λ n. ok (record { is_file = true; len = n })) len

resolved_directories :
    (std : Std) (files : ReportFiles) (tool : ToolRuntimePayload) (roots : List CanonicalPath)
    → resolve_report_allowed_roots std files tool ≡ ok roots
    → directories files (candidates std files tool) ≡ roots
unfolding resolve_report_allowed_roots
resolved_directories std files tool roots resolved = ground (arith, resolved)

IsAllowed-by :
    (std : Std) (files : ReportFiles) (tool : ToolRuntimePayload) (file_path : String)
    (v : ValidatedPath) (path : CanonicalPath) (roots : List CanonicalPath) (metadata : Metadata)
    → files.canonicalize (normalize_report_request_path files file_path) ≡ ok path
    → resolve_report_allowed_roots std files tool ≡ ok roots
    → files.metadata path ≡ ok metadata
    → ReadAs files path v metadata
    → is_markdown_file_path files (normalize_report_request_path files file_path) ≡ true
    → is_sensitive_rule_markdown_path std path ≡ false
    → is_in_roots path roots ≡ true
    → IsAllowed std files tool file_path v
IsAllowed-by std files tool file_path v path roots metadata found resolved read as_read markdown
      harmless within =
    let same = as_read.0 in
    let (root, m, below) = in_roots path roots within in
    record {
      markdown = markdown;
      found = found ∙ ap ok same;
      harmless = ap (is_sensitive_rule_markdown_path std) (sym same) ∙ harmless;
      root = root;
      allowed =
          directories-IsRootOf files (candidates std files tool) root
            (subst (IsMember root) (sym (resolved_directories std files tool roots resolved)) m);
      inside = ap (is_below root) (sym same) ∙ below;
      file = file_of files path v metadata read as_read;
    }

-- A file that passes the check for a report was asked for by a name that ends in md, is a file, is none
-- of the files with rules for a tool, and lies in one of the candidate directories, links resolved.
pub validate_report_path-IsAllowed :
    (std : Std) (files : ReportFiles) (tool : ToolRuntimePayload) (file_path : String)
    (v : ValidatedPath)
    → validate_report_path std files tool file_path ≡ ok v
    → IsAllowed std files tool file_path v
unfolding validate_report_path
validate_report_path-IsAllowed std files tool file_path v h =
    elim (Result-cases (files.canonicalize (normalize_report_request_path files file_path))) [
      | inr (e, missing) ↦ absurd (ground (arith, h, missing))
      | inl (path, found) ↦ elim (Result-cases (resolve_report_allowed_roots std files tool)) [
        | inr (e, no_roots) ↦ absurd (ground (arith, h, found, no_roots))
        | inl (roots, resolved) ↦ elim (Result-cases (files.metadata path)) [
          | inr (e, unread) ↦ absurd (ground (arith, h, found, resolved, unread))
          | inl (metadata, read) ↦
              let (as_read, markdown, harmless, within) : (ReadAs files path v metadata
                  × (is_markdown_file_path files (normalize_report_request_path files file_path)
                      ≡ true)
                  × (is_sensitive_rule_markdown_path std path ≡ false)
                  × (is_in_roots path roots ≡ true)) =
                ground (arith, h, found, resolved, read) in
              IsAllowed-by std files tool file_path v path roots metadata found resolved read
                as_read markdown harmless within
        ]
      ]
    ]
