-- ===== src/Sidecar/Session/Launch/Roots.antt =====
-- Where a launch that is let through starts the tool.
use your_connector.Common.{
  ◌≡◌, ◌⊎◌, refl, true, Option, none, some, List, [], ◌∷◌, ◌++◌, String, Result, ok, err, subst,
  Result-cases, ok-injective, arith, Bool-cases, Option-cases, inl, inr,
}
use your_connector.Common.Text.{trim, is_empty}
use your_connector.Sidecar.Control.{Launch}
use your_connector.Sidecar.Session.Launch.{
  CanonicalPath, is_below, Files, LaunchTool, PreparedLaunch, parse_launch_tool, expand_tilde,
  canonicalize_launch_cwd, tool_matches_launch_target, root_of, workspace_root, workspace_roots,
  listed_roots, home_root, resolve_launch_allowed_roots, is_in_roots, prepare_launch_request,
}
use your_connector.Sidecar.Session.Tool.{Std, ToolRuntimePayload}

pub data IsMember {A : Type 0} (a : A) : List A → Type 0 where
  here : {xs : List A} → IsMember a (a ∷ xs)
  there : {x : A} {xs : List A} → IsMember a xs → IsMember a (x ∷ xs)

-- The directories in which a tool may be Launched: the workspace of a discovered tool of that kind,
-- a directory that the environment lists, and the home directory.
pub data IsLaunchRoot (std : Std) (files : Files) (tools : List ToolRuntimePayload)
    (target : LaunchTool) (root : CanonicalPath) : Type 0 where
  of_workspace :
      (tool : ToolRuntimePayload) (workspace : String)
      → IsMember tool tools
      → tool_matches_launch_target std target tool ≡ true
      → tool.workspace_dir ≡ some workspace
      → files.canonicalize (trim workspace) ≡ ok root
      → IsLaunchRoot std files tools target root
  of_list :
      (value : String)
      → IsMember value files.extra_roots
      → files.canonicalize value ≡ ok root
      → IsLaunchRoot std files tools target root
  of_home :
      (home : String)
      → files.home ≡ some home
      → files.canonicalize home ≡ ok root
      → IsLaunchRoot std files tools target root

IsMember-append :
    {A : Type 0} (a : A) (xs ys : List A) → IsMember a (xs ++ ys) → IsMember a xs ⊎ IsMember a ys
IsMember-append a [] ys m = inr m
IsMember-append a (x ∷ xs) ys here = inl here
IsMember-append a (x ∷ xs) ys (there m) = elim (IsMember-append a xs ys m) [
  | inl left ↦ inl (there left)
  | inr right ↦ inr right
]

IsMember-root_of :
    (root : CanonicalPath) (r : Result String CanonicalPath)
    → IsMember root (root_of r)
    → r ≡ ok root
IsMember-root_of root (ok path) here = refl
IsMember-root_of root (ok path) (there m) = elim m [ ]
IsMember-root_of root (err e) m = elim m [ ]

pub in_roots :
    (cwd : CanonicalPath) (roots : List CanonicalPath)
    → is_in_roots cwd roots ≡ true
    → (root : CanonicalPath) × IsMember root roots × (is_below root cwd ≡ true)
unfolding is_in_roots
in_roots cwd [] h = cc
in_roots cwd (root ∷ roots) h = elim (Bool-cases (is_below root cwd)) [
  | inl below ↦ (root, here, below)
  | inr outside ↦
      let (r, m, below) = in_roots cwd roots (ground (arith, h, outside)) in (r, there m, below)
]

home-IsMember :
    (files : Files) (root : CanonicalPath) (home : Option String)
    → IsMember root (home_root files home)
    → (h : String) × (home ≡ some h) × (files.canonicalize h ≡ ok root)
home-IsMember files root none m = elim m [ ]
home-IsMember files root (some home) m = elim (Bool-cases (is_empty (trim home))) [
  | inl blank ↦ elim (rw blank at m) [ ]
  | inr named ↦ (home, refl, IsMember-root_of root _ (rw named at m))
]

listed-IsMember :
    (files : Files) (root : CanonicalPath) (values : List String)
    → IsMember root (listed_roots files values)
    → (v : String) × IsMember v values × (files.canonicalize v ≡ ok root)
unfolding listed_roots
listed-IsMember files root [] m = elim m [ ]
listed-IsMember files root (value ∷ more) m =
    elim (IsMember-append root (root_of (files.canonicalize value)) (listed_roots files more) m) [
      | inl first ↦ (value, here, IsMember-root_of root _ first)
      | inr rest ↦ let (v, k, e) = listed-IsMember files root more rest in (v, there k, e)
    ]

workspace_of-IsMember :
    (files : Files) (root : CanonicalPath) (dir : Option String)
    → IsMember root (workspace_root files dir)
    → (w : String) × (dir ≡ some w) × (files.canonicalize (trim w) ≡ ok root)
workspace_of-IsMember files root none m = elim m [ ]
workspace_of-IsMember files root (some w) m = elim (Bool-cases (is_empty (trim w))) [
  | inl blank ↦ elim (rw blank at m) [ ]
  | inr named ↦ (w, refl, IsMember-root_of root _ (rw named at m))
]

workspace-IsMember :
    (std : Std) (files : Files) (target : LaunchTool) (root : CanonicalPath)
    (tools : List ToolRuntimePayload)
    → IsMember root (workspace_roots std files target tools)
    → (tool : ToolRuntimePayload) × (w : String) × IsMember tool tools
      × (tool_matches_launch_target std target tool ≡ true)
      × (tool.workspace_dir ≡ some w)
      × (files.canonicalize (trim w) ≡ ok root)
unfolding workspace_roots
workspace-IsMember std files target root [] m = elim m [ ]
workspace-IsMember std files target root (tool ∷ tools) m =
    elim (Bool-cases (tool_matches_launch_target std target tool)) [
      | inl fits ↦
          elim (IsMember-append root (workspace_root files tool.workspace_dir)
            (workspace_roots std files target tools) (rw fits at m)) [
              | inl first ↦
                  let (w, dir, e) = workspace_of-IsMember files root tool.workspace_dir first in
                  (tool, w, here, fits, dir, e)
              | inr rest ↦
                  let (t, w, k, f, dir, e) = workspace-IsMember std files target root tools rest in
                  (t, w, there k, f, dir, e)
            ]
      | inr other ↦
          let (t, w, k, f, dir, e) =
            workspace-IsMember std files target root tools (rw other at m) in
          (t, w, there k, f, dir, e)
    ]

roots-IsMember :
    (std : Std) (files : Files) (tools : List ToolRuntimePayload) (target : LaunchTool)
    (root : CanonicalPath)
    → IsMember root (resolve_launch_allowed_roots std files tools target)
    → IsLaunchRoot std files tools target root
unfolding resolve_launch_allowed_roots
roots-IsMember std files tools target root m =
    elim (IsMember-append root
      (workspace_roots std files target tools ++ listed_roots files files.extra_roots)
      (home_root files files.home) m) [
        | inl before ↦
            elim (IsMember-append root (workspace_roots std files target tools)
              (listed_roots files files.extra_roots) before) [
                | inl first ↦
                    let (tool, w, k, fits, dir, e) =
                      workspace-IsMember std files target root tools first in
                    of_workspace tool w k fits dir e
                | inr listed ↦
                    let (v, k, e) = listed-IsMember files root files.extra_roots listed in
                    of_list v k e
              ]
        | inr last ↦ let (h, e, c) = home-IsMember files root files.home last in of_home h e c
      ]

canonical_cwd :
    (files : Files) (raw : String) (cwd : CanonicalPath)
    → canonicalize_launch_cwd files raw ≡ ok cwd
    → (files.canonicalize (trim (expand_tilde files raw)) ≡ ok cwd) × (files.is_dir cwd ≡ true)
unfolding canonicalize_launch_cwd
canonical_cwd files raw cwd h =
    elim (Result-cases (files.canonicalize (trim (expand_tilde files raw)))) [
      | inl (path, found) ↦ ground (arith, h, found)
      | inr (e, missing) ↦ absurd (ground (arith, h, missing))
    ]

allowed_root :
    (std : Std) (files : Files) (tools : List ToolRuntimePayload) (tool : LaunchTool)
    (cwd : CanonicalPath)
    → is_in_roots cwd (resolve_launch_allowed_roots std files tools tool) ≡ true
    → (root : CanonicalPath) × IsLaunchRoot std files tools tool root × (is_below root cwd ≡ true)
allowed_root std files tools tool cwd inside =
    let (root, m, below) =
      in_roots cwd (resolve_launch_allowed_roots std files tools tool) inside in
    (root, roots-IsMember std files tools tool root m, below)

-- what is required of a launch
abbrev pub Launched : Std → Files → Launch → List ToolRuntimePayload → PreparedLaunch → Type 0
Launched std files request tools p =
    (parse_launch_tool std request.tool_name ≡ some p.tool)
    × ((files.canonicalize (trim (expand_tilde files request.cwd)) ≡ ok p.cwd)
        × (files.is_dir p.cwd ≡ true))
    × ((root : CanonicalPath) × IsLaunchRoot std files tools p.tool root
        × (is_below root p.cwd ≡ true))

-- A launch request that is let through names a tool that the sidecar knows, and the directory in
-- which that tool is to start is an existing one that lies in a workspace of such a tool, in a
-- directory that the environment lists, or in the home directory, links resolved.
pub launch_in_root :
    (std : Std) (files : Files) (request : Launch) (tools : List ToolRuntimePayload)
    (p : PreparedLaunch)
    → prepare_launch_request std files request tools ≡ ok p
    → Launched std files request tools p
unfolding prepare_launch_request
launch_in_root std files request tools p h =
    elim (Option-cases (parse_launch_tool std request.tool_name)) [
      | inl unknown ↦ absurd (ground (arith, h, unknown))
      | inr (tool, known) ↦ elim (Result-cases (canonicalize_launch_cwd files request.cwd)) [
        | inr (e, refused) ↦ absurd (ground (arith, h, known, refused))
        | inl (cwd, at_cwd) ↦
            elim (Bool-cases
              (is_in_roots cwd (resolve_launch_allowed_roots std files tools tool))) [
                | inr outside ↦ absurd (ground (arith, h, known, at_cwd, outside))
                | inl inside ↦
                    let same : record { tool = tool; cwd = cwd } ≡ p =
                      ok-injective _ _ (rw (known, at_cwd, inside) at h) in
                    subst (Launched std files request tools) same (
                      known,
                      canonical_cwd files request.cwd cwd at_cwd,
                      allowed_root std files tools tool cwd inside,
                    )
              ]
      ]
    ]
