-- ===== src/Sidecar/Control/Fields.antt =====
-- services/sidecar/src/control.rs: how single fields are read
use Prim.Native.Char.{code}
use your_connector.Common.{
  ℕ, ◌+◌, ◌&&◌, Bool, true, false, Option, none, some, String, leb, eqb, if◌then◌else◌,
}
use your_connector.Common.Json.{Value, unsigned, text}
use your_connector.Common.Text.{trim, parse_u64}

-- `u8::to_ascii_lowercase` on a code point
abbrev pub lower_code : ℕ → ℕ
lower_code c = if leb b'A' c && leb c b'Z' then c + 32 else c

-- `str::eq_ignore_ascii_case`; with a lower-case literal on the right, also the comparison of
-- `to_ascii_lowercase()` with it
unfoldable pub eq_ignore_ascii_case : String → String → Bool
eq_ignore_ascii_case String.[] String.[] = true
eq_ignore_ascii_case String.[] (String.◌∷◌ d t) = false
eq_ignore_ascii_case (String.◌∷◌ c s) String.[] = false
eq_ignore_ascii_case (String.◌∷◌ c s) (String.◌∷◌ d t) =
    let rest = eq_ignore_ascii_case s t in
    if eqb (lower_code (code c)) (lower_code (code d)) then rest else false

abbrev or_zero : Option ℕ → ℕ
or_zero none = 0
or_zero (some n) = n

-- a negative number and a float are read as 0
unfoldable pub parse_u64_field : Option Value → ℕ
parse_u64_field none = 0
parse_u64_field (some (unsigned n)) = n
parse_u64_field (some (text s)) = or_zero (parse_u64 (trim s))
parse_u64_field (some _) = 0
