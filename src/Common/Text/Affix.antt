-- ===== src/Common/Text/Affix.antt =====
-- The standard library's `str`: prefixes, suffixes and the last occurrence of a pattern.
use Prim.Native.String.{String, [], ◌∷◌}
use Prim.Native.Char.{Char, code}
use mathlib.Core.Bool.{Bool, true, false, ◌&&◌}
use mathlib.Core.Option.{Option, none, some}
use your_connector.Common.Tests.{leb, eqb, if◌then◌else◌}
use your_connector.Common.Equality.{◌==◌, string_eq}

-- `s.strip_prefix(p)`
unfoldable pub strip_prefix : String → String → Option String
strip_prefix [] s = some s
strip_prefix (d ∷ p) [] = none
strip_prefix (d ∷ p) (c ∷ s) =
    let rest = strip_prefix p s in if eqb (code c) (code d) then rest else none

abbrev before : Char → Option String → Option String
before c none = none
before c (some s) = some (c ∷ s)

-- `s.strip_suffix(p)`
unfoldable pub strip_suffix : String → String → Option String
strip_suffix p [] = if p == [] then some [] else none
strip_suffix p (c ∷ s) =
    let rest = strip_suffix p s in if (c ∷ s) == p then some [] else before c rest

abbrev before_first : Char → Option (String × String) → Option (String × String)
before_first c none = none
before_first c (some (a, b)) = some (c ∷ a, b)

abbrev split_here : Option String → Option (String × String)
split_here none = none
split_here (some rest) = some ([], rest)

abbrev first_of : Option (String × String) → Option (String × String) → Option (String × String)
first_of none e = e
first_of (some p) e = some p

-- `s.rsplit_once(p)`, for a pattern that does not overlap itself
unfoldable pub rsplit_once : String → String → Option (String × String)
unfolding strip_prefix
rsplit_once p [] = split_here (strip_prefix p [])
rsplit_once p (c ∷ s) =
    first_of (before_first c (rsplit_once p s)) (split_here (strip_prefix p (c ∷ s)))

-- `s.chars().all(|ch| ch.is_ascii_digit())`
unfoldable pub all_digits : String → Bool
all_digits [] = true
all_digits (c ∷ s) =
    let rest = all_digits s in if leb b'0' (code c) && leb (code c) b'9' then rest else false

-- `s.starts_with(p)`
abbrev is_found : Option String → Bool
is_found none = false
is_found (some s) = true

unfoldable pub starts_with : String → String → Bool
unfolding strip_prefix
starts_with p s = is_found (strip_prefix p s)

-- `s.contains(p)`
unfoldable pub contains : String → String → Bool
unfolding starts_with
contains p [] = starts_with p []
contains p (c ∷ s) = let rest = contains p s in if starts_with p (c ∷ s) then true else rest
