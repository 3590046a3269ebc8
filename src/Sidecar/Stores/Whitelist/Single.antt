-- ===== src/Sidecar/Stores/Whitelist/Single.antt =====
-- There is one OpenClaw tool at most, and a tool that was removed is gone.
use your_connector.Common.{
  ℕ, ◌+◌, ◌≤◌, ◌<◌, ◌≡◌, refl, ap, not, Bool, true, false, Option, none, some, List, [], ◌∷◌, ◌++◌,
  String, Result, ok, err, string_eq, eqb, length, if◌then◌else◌, arith, Bool-cases, Option-cases,
  inl, inr,
}
use your_connector.Common.Exec.{pure, continue, ◌>>◌}
use your_connector.Common.HashSet
use your_connector.Common.HashSet.{HashSet, contains-insert, contains-remove, contains-retain}
use your_connector.Sidecar.Stores.Identity.{openclaw_identity_hash}
use your_connector.Sidecar.Stores.Whitelist.{
  ToolWhitelistStore, openclaw_hashes, is_openclaw, contains_hash, saved, save, save_if_changed,
  add_id, add, remove_by_hash, remove_drifted, remove_only, has_hash, remove, clear,
}

abbrev pub openclaw_count : HashSet String → ℕ
openclaw_count ids = length (openclaw_hashes ids)

length-append :
    (id : String) (ids : HashSet String)
    → openclaw_count (ids ++ id ∷ []) ≡ openclaw_count ids + (if is_openclaw id then 1 else 0)
unfolding openclaw_hashes
length-append id [] = elim (Option-cases (openclaw_identity_hash id)) [
  | inl e ↦ ground (arith, e)
  | inr (h, e) ↦ ground (arith, e)
]
length-append id (j ∷ ids) = elim (Option-cases (openclaw_identity_hash j)) [
  | inl e ↦ ground (arith, e, length-append id ids)
  | inr (h, e) ↦ ground (arith, e, length-append id ids)
]

pub count-insert :
    (id : String) (ids : HashSet String)
    → openclaw_count (HashSet.insert id ids)
      ≤ openclaw_count ids + (if is_openclaw id then 1 else 0)
unfolding HashSet.insert
count-insert id ids = ground (arith, length-append id ids)

-- Dropping ids by a test leaves no more.
pub count-retain :
    (p : String → Bool) (ids : HashSet String)
    → openclaw_count (HashSet.retain p ids) ≤ openclaw_count ids
unfolding openclaw_hashes HashSet.retain
count-retain p [] = omega arith
count-retain p (j ∷ ids) = elim (Option-cases (openclaw_identity_hash j)) [
  | inl e ↦ ground (arith, e, count-retain p ids)
  | inr (h, e) ↦ ground (arith, e, count-retain p ids)
]

pub count-retain_none :
    (p : String → Bool) (ids : HashSet String)
    → ((id : String) → is_openclaw id ≡ true → p id ≡ false)
    → openclaw_count (HashSet.retain p ids) ≡ 0
unfolding openclaw_hashes HashSet.retain
count-retain_none p [] h = refl
count-retain_none p (j ∷ ids) h = elim (Option-cases (openclaw_identity_hash j)) [
  | inl e ↦ ground (arith, e, count-retain_none p ids h)
  | inr (x, e) ↦ ground (arith, e, count-retain_none p ids h, h j)
]

pub count-remove :
    (id : String) (ids : HashSet String)
    → openclaw_count (HashSet.remove id ids) ≤ openclaw_count ids
unfolding openclaw_hashes HashSet.remove
count-remove id [] = omega arith
count-remove id (j ∷ ids) = elim (Option-cases (openclaw_identity_hash j)) [
  | inl e ↦ ground (arith, e, count-remove id ids)
  | inr (h, e) ↦ ground (arith, e, count-remove id ids)
]

-- An OpenClaw id that is removed leaves one less.
pub count-remove_present :
    (id : String) (ids : HashSet String)
    → is_openclaw id ≡ true
    → HashSet.contains id ids ≡ true
    → openclaw_count (HashSet.remove id ids) < openclaw_count ids
unfolding openclaw_hashes HashSet.remove HashSet.contains
count-remove_present id [] h k = cc
count-remove_present id (j ∷ ids) h k = elim (Option-cases (openclaw_identity_hash j)) [
  | inl e ↦ ground (arith, e, h, k, count-remove_present id ids h)
  | inr (x, e) ↦ ground (arith, e, h, k, count-remove_present id ids h, count-remove id ids)
]

-- Saving changes nothing, however the writing of the file went.
save-same :
    {A : Type 0} (written : Result String (Unit {0})) (a : A) (s : ToolWhitelistStore)
    → ((save written >> pure a) s).1 ≡ s
unfolding save
save-same written a s = by_outcome (saved s.path written)
  where
    by_outcome : (w : Result String (Unit {0})) → (continue w (λ _. pure a) s).1 ≡ s
    by_outcome (ok u) = refl
    by_outcome (err e) = refl

save_if_changed-same :
    (written : Result String (Unit {0})) (before : HashSet String) (s : ToolWhitelistStore)
    → (save_if_changed written before s).1 ≡ s
unfolding save_if_changed
save_if_changed-same written before s = elim (Bool-cases (HashSet.same_set s.ids before)) [
  | inl same ↦ rw same refl
  | inr changed ↦ rw changed (save-same written true s)
]

pub add-ids :
    (written : Result String (Unit {0})) (id : String) (s : ToolWhitelistStore)
    → (add written id s).1.ids ≡ add_id id s.ids
unfolding add
add-ids written id s =
    ap (λ t. t.ids) (save_if_changed-same written s.ids (record s { ids = add_id id s.ids }))

-- what `remove` leaves
unfoldable pub removed_ids : String → HashSet String → HashSet String
removed_ids id ids =
    if HashSet.contains id ids
    then HashSet.remove id ids
    else remove_drifted (openclaw_identity_hash id) ids

pub remove-ids :
    (written : Result String (Unit {0})) (id : String) (s : ToolWhitelistStore)
    → (remove written id s).1.ids ≡ removed_ids id s.ids
unfolding remove removed_ids
remove-ids written id s = elim (Bool-cases (HashSet.contains id s.ids)) [
  | inl exact ↦
      rw exact
        (ap (λ t. t.ids) (save-same written true (record s { ids = HashSet.remove id s.ids })))
  | inr other ↦ rw other (
      ap (λ t. t.ids)
        (save_if_changed-same written s.ids
          (record s { ids = remove_drifted (openclaw_identity_hash id) s.ids })))
]

nil_of_length : (ids : HashSet String) → length ids ≡ 0 → ids ≡ []
nil_of_length [] h = refl
nil_of_length (id ∷ ids) h = absurd (omega (arith, h))

clear-ids :
    (written : Result String (Unit {0})) (s : ToolWhitelistStore) → (clear written s).1.ids ≡ []
unfolding clear
clear-ids written s = elim (Bool-cases (eqb (length s.ids) 0)) [
  | inl none_left ↦ rw none_left (nil_of_length s.ids (ground (arith, none_left)))
  | inr some_left ↦
      rw some_left (ap (λ t. t.ids) (save-same written (length s.ids) (record s { ids = [] })))
]

pub count-add_id :
    (id : String) (ids : HashSet String)
    → openclaw_count ids ≤ 1
    → openclaw_count (add_id id ids) ≤ 1
unfolding add_id
count-add_id id ids h = elim (Bool-cases (is_openclaw id)) [
  | inl openclaw ↦ ground (
    arith,
    openclaw,
    count-insert id (HashSet.retain (λ j. not (is_openclaw j)) ids),
    count-retain_none (λ j. not (is_openclaw j)) ids (λ j e. ground (arith, e)),
  )
  | inr other ↦ ground (arith, other, count-insert id ids)
]

pub count-remove_only :
    (only : List String) (ids : HashSet String)
    → openclaw_count (remove_only only ids) ≤ openclaw_count ids
count-remove_only [] ids = omega arith
count-remove_only (id ∷ []) ids = count-remove id ids
count-remove_only (id ∷ j ∷ more) ids = omega arith

pub count-remove_by_hash :
    (hash : String) (ids : HashSet String)
    → openclaw_count (remove_by_hash hash ids) ≤ openclaw_count ids
unfolding remove_by_hash
count-remove_by_hash hash ids = elim (Bool-cases (contains_hash hash (openclaw_hashes ids))) [
  | inl known ↦ rw known (count-retain (λ id. not (has_hash hash id)) ids)
  | inr drifted ↦ rw drifted (count-remove_only (HashSet.retain is_openclaw ids) ids)
]

pub count-removed_ids :
    (id : String) (ids : HashSet String) → openclaw_count (removed_ids id ids) ≤ openclaw_count ids
unfolding removed_ids
count-removed_ids id ids = elim (Bool-cases (HashSet.contains id ids)) [
  | inl exact ↦ rw exact (count-remove id ids)
  | inr other ↦ rw other (by_hash (openclaw_identity_hash id))
]
  where
    by_hash : (h : Option String) → openclaw_count (remove_drifted h ids) ≤ openclaw_count ids
    by_hash none = omega arith
    by_hash (some hash) = count-remove_by_hash hash ids

-- A call that changes the whitelist, with what the writing of the file returned.
pub data Change : Type 0 where
  adds removes : Result String (Unit {0}) → String → Change
  clears : Result String (Unit {0}) → Change

unfoldable pub change : ToolWhitelistStore → Change → ToolWhitelistStore
change s (adds written id) = (add written id s).1
change s (removes written id) = (remove written id s).1
change s (clears written) = (clear written s).1

unfoldable pub changes : ToolWhitelistStore → List Change → ToolWhitelistStore
changes s [] = s
changes s (c ∷ cs) = changes (change s c) cs

pub change_single :
    (s : ToolWhitelistStore) (c : Change)
    → openclaw_count s.ids ≤ 1
    → openclaw_count (change s c).ids ≤ 1
unfolding change
change_single s (adds written id) h = rw (add-ids written id s) (count-add_id id s.ids h)
change_single s (removes written id) h =
    rw (remove-ids written id s) (omega (arith, h, count-removed_ids id s.ids))
change_single s (clears written) h =
    rw (clear-ids written s) (unfold openclaw_hashes in omega arith)

-- A whitelist that has one OpenClaw tool at most has one at most after any sequence of additions,
-- removals and clearings, also where the file could not be written.
pub changes_single :
    (s : ToolWhitelistStore) (cs : List Change)
    → openclaw_count s.ids ≤ 1
    → openclaw_count (changes s cs).ids ≤ 1
unfolding changes
changes_single s [] h = h
changes_single s (c ∷ cs) h = changes_single (change s c) cs (change_single s c h)
