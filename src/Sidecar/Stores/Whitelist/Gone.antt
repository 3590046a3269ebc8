-- ===== src/Sidecar/Stores/Whitelist/Gone.antt =====
-- A tool that was removed is gone, under every id that it may come back with.
use your_connector.Common.{
  ◌≤◌, ◌<◌, ◌≡◌, refl, ap, ◌&&◌, not, true, false, Option, none, some, List, [], ◌∷◌, String,
  Result, ==_refl, string_eq, length, arith, Bool-cases, Option-cases, inl, inr,
}
use your_connector.Common.HashSet
use your_connector.Common.HashSet.{HashSet, contains-remove, contains-retain}
use your_connector.Sidecar.Stores.Identity.{openclaw_identity_hash}
use your_connector.Sidecar.Stores.Whitelist.{
  ToolWhitelistStore, openclaw_hashes, is_openclaw, contains_hash, contains_compatible, has_hash,
  remove_by_hash, remove_drifted, remove_only, remove,
}
use your_connector.Sidecar.Stores.Whitelist.Single.{
  openclaw_count, count-retain, count-remove_present, removed_ids, remove-ids,
}

count-retain_hash :
    (hash : String) (ids : HashSet String)
    → contains_hash hash (openclaw_hashes ids) ≡ true
    → openclaw_count (HashSet.retain (λ id. not (has_hash hash id)) ids) < openclaw_count ids
unfolding openclaw_hashes HashSet.retain contains_hash
count-retain_hash hash [] h = cc
count-retain_hash hash (j ∷ ids) h = elim (Option-cases (openclaw_identity_hash j)) [
  | inl e ↦ ground (arith, e, h, count-retain_hash hash ids)
  | inr (x, e) ↦
      ground
        (arith, e, h, count-retain_hash hash ids, count-retain (λ id. not (has_hash hash id)) ids)
]

length-retain_openclaw :
    (ids : HashSet String) → length (HashSet.retain is_openclaw ids) ≡ openclaw_count ids
unfolding openclaw_hashes HashSet.retain
length-retain_openclaw [] = refl
length-retain_openclaw (j ∷ ids) = elim (Option-cases (openclaw_identity_hash j)) [
  | inl e ↦ ground (arith, e, length-retain_openclaw ids)
  | inr (x, e) ↦ ground (arith, e, length-retain_openclaw ids)
]

remove_only_none :
    (ids only : HashSet String)
    → HashSet.retain is_openclaw ids ≡ only
    → openclaw_count ids ≤ 1
    → openclaw_count (remove_only only ids) ≡ 0
unfolding HashSet.contains
remove_only_none ids [] e h = omega (arith, length-retain_openclaw ids, ap length e)
remove_only_none ids (j ∷ []) e h =
    let kept = contains-retain j is_openclaw ids in
    let found : (is_openclaw j && HashSet.contains j ids) ≡ true =
      ground (arith, kept, ap (HashSet.contains j) e) in
    omega (arith, h, count-remove_present j ids (ground (arith, found)) (ground (arith, found)))
remove_only_none ids (j ∷ k ∷ more) e h =
    absurd (omega (arith, h, length-retain_openclaw ids, ap length e))

removed_none :
    (id : String) (ids : HashSet String)
    → is_openclaw id ≡ true
    → openclaw_count ids ≤ 1
    → openclaw_count (removed_ids id ids) ≡ 0
unfolding removed_ids remove_by_hash
removed_none id ids openclaw h = elim (Bool-cases (HashSet.contains id ids)) [
  | inl exact ↦ rw exact (omega (arith, h, count-remove_present id ids openclaw exact))
  | inr other ↦ elim (Option-cases (openclaw_identity_hash id)) [
    | inl no_hash ↦ absurd (ground (arith, openclaw, no_hash))
    | inr (hash, e) ↦
        rw (other, e)
          (elim (Bool-cases (contains_hash hash (openclaw_hashes ids))) [
            | inl known ↦ rw known (omega (arith, h, count-retain_hash hash ids known))
            | inr drifted ↦
                rw drifted (remove_only_none ids (HashSet.retain is_openclaw ids) refl h)
          ])
  ]
]

contains-remove_only :
    (id : String) (only : List String) (ids : HashSet String)
    → HashSet.contains id ids ≡ false
    → HashSet.contains id (remove_only only ids) ≡ false
contains-remove_only id [] ids h = h
contains-remove_only id (j ∷ []) ids h = ground (arith, contains-remove id j ids)
contains-remove_only id (j ∷ k ∷ more) ids h = h

contains-remove_drifted :
    (id : String) (hash : Option String) (ids : HashSet String)
    → HashSet.contains id ids ≡ false
    → HashSet.contains id (remove_drifted hash ids) ≡ false
unfolding remove_by_hash
contains-remove_drifted id none ids h = h
contains-remove_drifted id (some hash) ids h = ground (
  arith,
  contains-retain id (λ j. not (has_hash hash j)) ids,
  contains-remove_only id (HashSet.retain is_openclaw ids) ids h,
)

contains-removed_ids :
    (id : String) (ids : HashSet String) → HashSet.contains id (removed_ids id ids) ≡ false
unfolding removed_ids
contains-removed_ids id ids = elim (Bool-cases (HashSet.contains id ids)) [
  | inl exact ↦ rw (exact, contains-remove, ==_refl id) refl
  | inr other ↦ rw other (contains-remove_drifted id (openclaw_identity_hash id) ids other)
]

hashes_nil : (hashes : List String) → length hashes ≡ 0 → hashes ≡ []
hashes_nil [] h = refl
hashes_nil (x ∷ hashes) h = absurd (omega (arith, h))

-- What `remove` leaves of a whitelist with one OpenClaw tool at most does not hold the removed tool
-- any more, not even under another id of the same tool, whether or not the file could be written.
pub remove_gone :
    (written : Result String (Unit {0})) (id : String) (s : ToolWhitelistStore)
    → openclaw_count s.ids ≤ 1
    → contains_compatible (remove written id s).1 id ≡ false
unfolding contains_compatible
remove_gone written id s h =
    rw (remove-ids written id s, contains-removed_ids id s.ids)
      (elim (Option-cases (openclaw_identity_hash id)) [
        | inl e ↦ rw e refl
        | inr (hash, e) ↦
            rw
              (
                e,
                hashes_nil (openclaw_hashes (removed_ids id s.ids))
                    (removed_none id s.ids (ground (arith, e)) h),
              )
              (unfold contains_hash in refl)
      ])
