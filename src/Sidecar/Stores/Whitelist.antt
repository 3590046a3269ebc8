-- ===== src/Sidecar/Stores/Whitelist.antt =====
-- services/sidecar/src/stores.rs: `ToolWhitelistStore`. The writing of the file is an argument,
-- what `save` returns for a store that has a path.
pub mod Single
pub mod Gone
use your_connector.Common.{
  ℕ, ◌&&◌, not, Bool, true, false, Option, none, some, is_some, List, [], ◌∷◌, String, Result, ok,
  err, ◌==◌, string_eq, eqb, length, if◌then◌else◌,
}
use your_connector.Common.Exec.{Exec, pure, lift, gets, modify, ◌>>=◌, ◌>>◌}
use your_connector.Common.HashSet
use your_connector.Common.HashSet.{HashSet}
use your_connector.Common.Text.{trim, is_empty}
use your_connector.Sidecar.Stores.Identity.{openclaw_identity_hash}

pub record ToolWhitelistStore : Type 0 where
  pub path : Option String
  pub ids : HashSet String

-- `filter_map(openclaw_identity_hash)`
unfoldable pub openclaw_hashes : HashSet String → List String
openclaw_hashes [] = []
openclaw_hashes (id ∷ ids) =
    let rest = openclaw_hashes ids in
    elim (openclaw_identity_hash id) [ none ↦ rest | some hash ↦ hash ∷ rest ]

abbrev pub is_openclaw : String → Bool
is_openclaw id = is_some (openclaw_identity_hash id)

unfoldable pub contains_hash : String → List String → Bool
contains_hash hash [] = false
contains_hash hash (h ∷ hs) = let rest = contains_hash hash hs in if h == hash then true else rest

-- the rule by which an id stands for another
abbrev compatible : Option String → List String → Bool
compatible none hashes = false
compatible (some hash) hashes = if contains_hash hash hashes then true else eqb (length hashes) 1

unfoldable pub contains_compatible : ToolWhitelistStore → String → Bool
contains_compatible s tool_id =
    if HashSet.contains tool_id s.ids
    then true
    else compatible (openclaw_identity_hash tool_id) (openclaw_hashes s.ids)

-- nothing is written without a path
abbrev pub saved : Option String → Result String (Unit {0}) → Result String (Unit {0})
saved none written = ok tt
saved (some path) written = written

unfoldable pub save : Result String (Unit {0}) → Exec ToolWhitelistStore String (Unit {0})
save written s = (saved s.path written, s)

abbrev set_ids : HashSet String → Exec ToolWhitelistStore String (Unit {0})
set_ids ids = modify (λ s. record s { ids = ids })

-- `if self.ids == before { return Ok(false) }`, and `save`
unfoldable pub save_if_changed :
    Result String (Unit {0}) → HashSet String → Exec ToolWhitelistStore String Bool
unfolding save
save_if_changed written before s =
    if HashSet.same_set s.ids before then (ok false, s) else (save written >> pure true) s

-- an OpenClaw id takes the place of the others
unfoldable pub add_id : String → HashSet String → HashSet String
add_id tool_id ids =
    HashSet.insert tool_id
      (if is_openclaw tool_id then HashSet.retain (λ id. not (is_openclaw id)) ids else ids)

unfoldable pub add : Result String (Unit {0}) → String → Exec ToolWhitelistStore String Bool
add written tool_id = do
  before ← gets (λ s. s.ids)
  set_ids (add_id tool_id before)
  save_if_changed written before

abbrev is_same_hash : String → Option String → Bool
is_same_hash hash none = false
is_same_hash hash (some h) = h == hash

abbrev pub has_hash : String → String → Bool
has_hash hash id = is_same_hash hash (openclaw_identity_hash id)

-- the last resort: the only OpenClaw id goes, whatever its hash
abbrev pub remove_only : List String → HashSet String → HashSet String
remove_only (id ∷ []) ids = HashSet.remove id ids
remove_only _ ids = ids

unfoldable pub remove_by_hash : String → HashSet String → HashSet String
remove_by_hash hash ids =
    if contains_hash hash (openclaw_hashes ids)
    then HashSet.retain (λ id. not (has_hash hash id)) ids
    else remove_only (HashSet.retain is_openclaw ids) ids

abbrev pub remove_drifted : Option String → HashSet String → HashSet String
remove_drifted none ids = ids
remove_drifted (some hash) ids = remove_by_hash hash ids

abbrev save_with :
    {A : Type 0} → Result String (Unit {0}) → HashSet String → A → Exec ToolWhitelistStore String A
save_with written ids a = do set_ids ids; save written; pure a

unfoldable pub remove : Result String (Unit {0}) → String → Exec ToolWhitelistStore String Bool
remove written tool_id s =
    if HashSet.contains tool_id s.ids
    then save_with written (HashSet.remove tool_id s.ids) true s
    else (set_ids (remove_drifted (openclaw_identity_hash tool_id) s.ids)
          >> save_if_changed written s.ids)
        s

unfoldable pub clear : Result String (Unit {0}) → Exec ToolWhitelistStore String ℕ
clear written s = if eqb (length s.ids) 0 then (ok 0, s) else save_with written [] (length s.ids) s

-- `trim`, and blank ids are dropped
unfoldable pub loaded_ids : List String → HashSet String
loaded_ids [] = []
loaded_ids (id ∷ ids) =
    let rest = loaded_ids ids in if is_empty (trim id) then rest else HashSet.insert (trim id) rest
