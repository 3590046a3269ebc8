-- ===== src/Common/Json.antt =====
-- `serde_json::Value`, as far as the services look into one. A float is kept as its text.
use Prim.Native.String.{String}
use mathlib.Core.Path.{◌≡◌, refl}
use mathlib.Core.Bool.{Bool}
use mathlib.Core.Option.{Option, none, some}
use native.Mathlib.Omega.{arith}
use Prim.Native.Nat.{ℕ}
use your_connector.Common.Tests.{if◌then◌else◌}
use your_connector.Common.Equality.{◌==◌, string_eq}
use your_connector.Common.Results.{Result}
use your_connector.Common.Text.{trim, is_empty}

mutual
  pub data Value : Type 0 where
    null : Value
    bool : Bool → Value
    unsigned : ℕ → Value
    negative : ℕ → Value  -- the number below 0 with this absolute value
    float : String → Value
    text : String → Value
    array : Items → Value
    object : Fields → Value

  pub data Items : Type 0 where
    nil : Items
    item : Value → Items → Items

  -- a `Map`, in an order that nothing relies on
  pub data Fields : Type 0 where
    end : Fields
    field : String → Value → Fields → Fields

unfoldable pub get : String → Fields → Option Value
get k end = none
get k (field j v m) = if k == j then some v else get k m

unfoldable pub insert : String → Value → Fields → Fields
insert k v end = field k v end
insert k v (field j w m) = if k == j then field k v m else field j w (insert k v m)

pub get-insert :
    (j k : String) (v : Value) (m : Fields)
    → get j (insert k v m) ≡ (if j == k then some v else get j m)
unfolding get insert
get-insert j k v end = refl
get-insert j k v (field i w m) = ground (arith, get-insert j k v m)

-- `Value::as_object`, `as_str`, `as_array`, `as_bool`
abbrev pub as_object : Value → Option Fields
as_object (object m) = some m
as_object _ = none

abbrev pub as_str : Value → Option String
as_str (text s) = some s
as_str _ = none

abbrev pub as_array : Value → Option Items
as_array (array xs) = some xs
as_array _ = none

abbrev pub as_bool : Value → Option Bool
as_bool (bool b) = some b
as_bool _ = none

-- `Value::get`: none for what is no object
abbrev pub value_get : String → Value → Option Value
value_get k (object m) = get k m
value_get k _ = none

abbrev pub then_str : Option Value → Option String
then_str none = none
then_str (some v) = as_str v

abbrev pub map_trim : Option String → Option String
map_trim none = none
map_trim (some s) = some (trim s)

abbrev pub or_blank : Option String → String
or_blank none = ""
or_blank (some s) = s

-- `v.and_then(Value::as_str).map(str::trim).unwrap_or_default()`
unfoldable pub trimmed_text : Option Value → String
trimmed_text v = or_blank (map_trim (then_str v))

abbrev pub non_empty : Option String → Option String
non_empty none = none
non_empty (some s) = if is_empty s then none else some s

-- `v.and_then(Value::as_str).map(str::trim).filter(|value| !value.is_empty())`
unfoldable pub filled_text : Option Value → Option String
filled_text v = non_empty (map_trim (then_str v))

-- `serde_json::from_str` and `to_string` on `Value`, with their errors as texts
pub record Serde : Type 0 where
  pub from_str : String → Result String Value
  pub to_string : Value → Result String String
