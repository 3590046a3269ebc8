-- ===== src/Sidecar/Stores/Controllers/Bound.antt =====
-- Which devices may control the sidecar.
use your_connector.Common.{
  ◌≡◌, ◌≤◌, refl, ◌∙◌, ap, ◌&&◌, not, Bool, true, false, Option, some, List, [], ◌∷◌, String,
  Result, ok, err, ◌==◌, string_eq, if◌then◌else◌, arith, Bool-cases, inl, inr, eqb, length,
}
use your_connector.Common.Exec.{pure, continue}
use your_connector.Common.HashSet
use your_connector.Common.HashSet.{HashSet, contains-insert}
use your_connector.Common.Text.{trim, is_empty}
use your_connector.Sidecar.Stores.Controllers.{
  ControllerDevicesStore, saved, save, put_and_save, is_none_bound, authorize_or_bind, rebind,
}

-- One call of `authorize_or_bind`.
pub record Attempt : Type 0 where
  pub written : Result String (Unit {0})
  pub client_type : String
  pub device_id : String
  pub allow_first_bind : Bool

abbrev pub attempt :
    Attempt → ControllerDevicesStore → Result String (Bool × String) × ControllerDevicesStore
attempt a s = authorize_or_bind a.written a.client_type a.device_id a.allow_first_bind s

abbrev pub is_allowed : Result String (Bool × String) → Bool
is_allowed (ok (allowed, reason)) = allowed
is_allowed (err e) = false

-- Once a device is bound, an attempt changes nothing, and is allowed if it comes from the app on a
-- bound device only.
pub attempt_bound :
    (a : Attempt) (s : ControllerDevicesStore)
    → is_none_bound s.ids ≡ false
    → ((attempt a s).1 ≡ s)
      × (is_allowed (attempt a s).0 ≡ (
          a.client_type == "app"
          && not (is_empty (trim a.device_id))
          && HashSet.contains (trim a.device_id) s.ids))
unfolding authorize_or_bind
attempt_bound a s bound = elim (Bool-cases (a.client_type == "app")) [
  | inl app ↦ elim (Bool-cases (is_empty (trim a.device_id))) [
    | inl blank ↦ rw (app, blank) (refl, refl)
    | inr named ↦ elim (Bool-cases (HashSet.contains (trim a.device_id) s.ids)) [
      | inl known ↦ rw (app, named, bound, known) (refl, refl)
      | inr unknown ↦ rw (app, named, bound, unknown) (refl, refl)
    ]
  ]
  | inr other ↦ rw other (refl, refl)
]

abbrev is_binding : Attempt → Bool
is_binding a = a.client_type == "app" && not (is_empty (trim a.device_id)) && a.allow_first_bind

abbrev pub none_bound : Option String → ControllerDevicesStore
none_bound path = record { path = path; ids = [] }

-- A change is made whether its writing succeeds or not.
pub put_and_save-ids :
    {A : Type 0} (written : Result String (Unit {0})) (ids : HashSet String) (a : A)
    (s : ControllerDevicesStore)
    → (put_and_save written ids a s).1.ids ≡ ids
unfolding save
put_and_save-ids written ids a s = by_outcome (saved s.path written)
  where
    by_outcome :
        (w : Result String (Unit {0}))
        → (continue w (λ u. pure a) (record s { ids = ids })).1.ids ≡ ids
    by_outcome (ok u) = refl
    by_outcome (err e) = refl

-- While no device is bound, an attempt binds its own device or changes nothing.
pub attempt_unbound :
    (a : Attempt) (path : Option String)
    → ((attempt a (none_bound path)).1.ids ≡ (if is_binding a then trim a.device_id ∷ [] else []))
      × (is_allowed (attempt a (none_bound path)).0 ≡ true → is_binding a ≡ true)
unfolding authorize_or_bind HashSet.insert HashSet.contains
attempt_unbound a path = elim (Bool-cases (a.client_type == "app")) [
  | inl app ↦ elim (Bool-cases (is_empty (trim a.device_id))) [
    | inl blank ↦ rw (app, blank) (refl, λ e. cc e)
    | inr named ↦ elim (Bool-cases a.allow_first_bind) [
      | inl may ↦
          rw (app, named, may)
            (
              put_and_save-ids a.written (trim a.device_id ∷ []) (true, "") (none_bound path),
              λ e. refl,
            )
      | inr not_may ↦ rw (app, named, not_may) (refl, λ e. cc e)
    ]
  ]
  | inr other ↦ rw other (refl, λ e. cc e)
]

-- One change of who is bound: an attempt or a rebinding.
pub data Change : Type 0 where
  attempts : Attempt → Change
  rebinds : Result String (Unit {0}) → String → Change

abbrev pub change : Change → ControllerDevicesStore → ControllerDevicesStore
change (attempts a) s = (attempt a s).1
change (rebinds written device_id) s = (rebind written device_id s).1

abbrev pub changes : List Change → ControllerDevicesStore → ControllerDevicesStore
changes [] s = s
changes (c ∷ more) s = changes more (change c s)

-- The device named last, blanks around it trimmed, where a blank name counts for nothing.
abbrev pub named_last : String → List Change → String
named_last id [] = id
named_last id (attempts a ∷ more) = named_last id more
named_last id (rebinds written device_id ∷ more) =
    named_last (if is_empty (trim device_id) then id else trim device_id) more

attempt_keeps :
    (a : Attempt) (s : ControllerDevicesStore) (id : String)
    → s.ids ≡ id ∷ []
    → (attempt a s).1.ids ≡ id ∷ []
attempt_keeps a s id one = rw (attempt_bound a s (ap is_none_bound one)).0 one

rebind_replaces :
    (written : Result String (Unit {0})) (device_id : String) (s : ControllerDevicesStore)
    (id : String)
    → s.ids ≡ id ∷ []
    → (rebind written device_id s).1.ids
      ≡ (if is_empty (trim device_id) then id else trim device_id) ∷ []
unfolding rebind HashSet.insert HashSet.contains
rebind_replaces written device_id s id one = elim (Bool-cases (is_empty (trim device_id))) [
  | inl blank ↦ rw blank one
  | inr named ↦
      elim (Bool-cases (eqb (length s.ids) 1 && HashSet.contains (trim device_id) s.ids)) [
        | inl same ↦
            let is_id : trim device_id ≡ id =
              ground (arith, same, ap (HashSet.contains (trim device_id)) one) in
            rw (named, same) (rw is_id one)
        | inr other ↦ rw (named, other) (put_and_save-ids written (trim device_id ∷ []) true s)
      ]
]

changes_bound :
    (list : List Change) (s : ControllerDevicesStore) (id : String)
    → s.ids ≡ id ∷ []
    → (changes list s).ids ≡ named_last id list ∷ []
changes_bound [] s id one = one
changes_bound (attempts a ∷ more) s id one =
    changes_bound more (attempt a s).1 id (attempt_keeps a s id one)
changes_bound (rebinds written device_id ∷ more) s id one =
    changes_bound more (rebind written device_id s).1
      (if is_empty (trim device_id) then id else trim device_id)
      (rebind_replaces written device_id s id one)

allowed_bound :
    (a : Attempt) (s : ControllerDevicesStore) (id : String)
    → s.ids ≡ id ∷ []
    → is_allowed (attempt a s).0 ≡ true
    → trim a.device_id ≡ id
unfolding HashSet.contains
allowed_bound a s id one allowed =
    let may = attempt_bound a s (ap is_none_bound one) in
    ground (arith, may.1, allowed, ap (HashSet.contains (trim a.device_id)) one)

-- From an unbound store, let one attempt be allowed, and let any attempts and rebindings follow, but
-- no seeding. An attempt allowed after them comes from the device that was named last, by a rebinding
-- or by the first attempt, up to blanks around the ids and leaving out rebindings to a blank name.
-- So without such a rebinding it comes from the device of the first attempt.
pub one_controller :
    (path : Option String) (first : Attempt) (between : List Change) (later : Attempt)
    → is_allowed (attempt first (none_bound path)).0 ≡ true
    → is_allowed (attempt later (changes between (attempt first (none_bound path)).1)).0 ≡ true
    → trim later.device_id ≡ named_last (trim first.device_id) between
one_controller path first between later allowed again =
    let s : ControllerDevicesStore = (attempt first (none_bound path)).1 in
    let unbound = attempt_unbound first path in
    let one : s.ids ≡ trim first.device_id ∷ [] = unbound.0 ∙ rw (unbound.1 allowed) refl in
    allowed_bound later (changes between s) (named_last (trim first.device_id) between)
      (changes_bound between s (trim first.device_id) one) again

-- Neither an attempt nor a rebinding leaves a second device bound.
pub attempt_single :
    (a : Attempt) (s : ControllerDevicesStore) → length s.ids ≤ 1 → length (attempt a s).1.ids ≤ 1
attempt_single a s = by_ids s.path s.ids
  where
    by_ids :
        (path : Option String) (ids : HashSet String)
        → length ids ≤ 1
        → length (attempt a (record { path = path; ids = ids })).1.ids ≤ 1
    by_ids path [] h = rw (attempt_unbound a path).0 (ground arith)
    by_ids path (id ∷ ids) h =
        rw (attempt_bound a (record { path = path; ids = id ∷ ids }) refl).0 h

pub rebind_single :
    (written : Result String (Unit {0})) (device_id : String) (s : ControllerDevicesStore)
    → length s.ids ≤ 1
    → length (rebind written device_id s).1.ids ≤ 1
unfolding rebind HashSet.insert HashSet.contains save
rebind_single written device_id s h = elim (Bool-cases (is_empty (trim device_id))) [
  | inl blank ↦ rw blank h
  | inr named ↦
      elim (Bool-cases (eqb (length s.ids) 1 && HashSet.contains (trim device_id) s.ids)) [
        | inl same ↦ rw (named, same) h
        | inr other ↦
            rw (named, other, put_and_save-ids written (trim device_id ∷ []) true s) (ground arith)
      ]
]

-- A rebinding to another device whose writing fails returns the error, but it has taken effect: from
-- then on it is the app on that device, and it alone, that is allowed.
pub rebind_unsaved :
    (e : String) (device_id : String) (path : String) (ids : HashSet String) (later : Attempt)
    → is_empty (trim device_id) ≡ false
    → (eqb (length ids) 1 && HashSet.contains (trim device_id) ids) ≡ false
    → ((rebind (err e) device_id (record { path = some path; ids = ids })).0 ≡ err e)
      × (is_allowed
            (attempt later (rebind (err e) device_id (record { path = some path; ids = ids })).1).0
          ≡ (later.client_type == "app"
              && not (is_empty (trim later.device_id))
              && trim later.device_id == trim device_id))
unfolding rebind save HashSet.insert HashSet.contains
rebind_unsaved e device_id path ids later named other =
    let rebound : ControllerDevicesStore = record { path = some path; ids = trim device_id ∷ [] } in
    rw (rebind, named, other, put_and_save)
      (refl, (attempt_bound later rebound refl).1 ∙ ground arith)
