-- ===== src/Common/Text.antt =====
-- The standard library's `str`: `trim`, `split`, `as_bytes`, `chars().take(n)`, decimal numbers.
mod Split
mod Decimal
pub mod Affix
pub mod Trimmed
unfoldable pub use Split.*
unfoldable pub use Decimal.*
use Prim.Native.Nat.{ℕ, zero, suc, ◌+◌, ◌-◌, ◌*◌, ◌/◌, ◌%◌}
use Prim.Native.Char.{code}
use Prim.Native.String.{String, [], ◌∷◌}
use mathlib.Core.Bool.{Bool, true, false, ◌&&◌, ◌||◌}
use mathlib.Core.List
use mathlib.Core.Path.{◌≡◌, refl}
use mathlib.Core.Logic.{◌≢◌}
use mathlib.Core.List.{List}
use your_connector.Common.Tests.{ltb, leb, eqb, if◌then◌else◌}

-- `str::is_empty`
abbrev pub is_empty : String → Bool
is_empty [] = true
is_empty (c ∷ s) = false

pub is_empty_of_ne : (s : String) → s ≢ [] → is_empty s ≡ false
is_empty_of_ne [] h = absurd (h refl)
is_empty_of_ne (c ∷ s) h = refl

-- `char::is_whitespace`, the Unicode property White_Space
unfoldable pub is_whitespace : ℕ → Bool
is_whitespace c =
    (leb 0x09 c && leb c 0x0d)
    || eqb c 0x20
    || eqb c 0x85
    || eqb c 0xa0
    || eqb c 0x1680
    || (leb 0x2000 c && leb c 0x200a)
    || eqb c 0x2028
    || eqb c 0x2029
    || eqb c 0x202f
    || eqb c 0x205f
    || eqb c 0x3000

unfoldable pub trim_start : String → String
unfolding is_whitespace
trim_start [] = []
trim_start (c ∷ s) = let rest = trim_start s in if is_whitespace (code c) then rest else c ∷ s

unfoldable pub trim_end : String → String
unfolding is_whitespace
trim_end [] = []
trim_end (c ∷ s) =
    let rest = trim_end s in if is_whitespace (code c) && is_empty rest then [] else c ∷ rest

unfoldable pub trim : String → String
unfolding trim_start trim_end
trim s = trim_end (trim_start s)

-- `s.chars().take(n).collect()`
unfoldable pub take_chars : ℕ → String → String
take_chars zero s = []
take_chars (suc n) [] = []
take_chars (suc n) (c ∷ s) = c ∷ take_chars n s

-- the UTF-8 bytes of a code point
unfoldable pub utf8 : ℕ → List ℕ
utf8 c =
    if ltb c 0x80
    then List.◌∷◌ c List.[]
    else if ltb c 0x800
    then List.◌∷◌ (0xc0 + c / 64) (List.◌∷◌ (0x80 + c % 64) List.[])
    else if ltb c 0x10000
    then List.◌∷◌ (0xe0 + c / 4096)
        (List.◌∷◌ (0x80 + c / 64 % 64) (List.◌∷◌ (0x80 + c % 64) List.[]))
    else List.◌∷◌ (0xf0 + c / 262144) (
        List.◌∷◌ (0x80 + c / 4096 % 64)
          (List.◌∷◌ (0x80 + c / 64 % 64) (List.◌∷◌ (0x80 + c % 64) List.[])))

-- `str::as_bytes`
unfoldable pub as_bytes : String → List ℕ
unfolding utf8
as_bytes [] = List.[]
as_bytes (c ∷ s) = List.◌++◌ (utf8 (code c)) (as_bytes s)
