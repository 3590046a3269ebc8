-- ===== src/Common/Text/Decimal.antt =====
-- `u64` as decimal text: `to_string` and `str::parse`.
use Prim.Native.Nat.{ℕ, zero, suc, ◌+◌, ◌-◌, ◌*◌, ◌/◌, ◌%◌}
use Prim.Native.Char.{code, Char}
use Prim.Native.String.{String, [], ◌∷◌}
use mathlib.Core.Bool.{◌&&◌}
use mathlib.Core.Option.{Option, none, some}
use your_connector.Common.Tests.{ltb, leb, eqb, if◌then◌else◌, u64_max}

-- one more digit; `checked_mul` and `checked_add` fail beyond `u64::MAX`
abbrev add_digit : ℕ → ℕ → Option ℕ
add_digit n c =
    if leb b'0' c && leb c b'9'
    then (let m = n * 10 + (c - b'0') in if leb m u64_max then some m else none)
    else none

unfoldable pub parse_digits : Option ℕ → String → Option ℕ
parse_digits none s = none
parse_digits (some n) [] = some n
parse_digits (some n) (c ∷ s) = parse_digits (add_digit n (code c)) s

-- `s.parse::<u64>()`: an optional plus sign, then at least one digit
unfoldable pub parse_u64 : String → Option ℕ
unfolding parse_digits
parse_u64 [] = none
parse_u64 (c ∷ []) = parse_digits (some 0) (c ∷ [])
parse_u64 (c ∷ d ∷ s) =
    if eqb (code c) b'+' then parse_digits (some 0) (d ∷ s) else parse_digits (some 0) (c ∷ d ∷ s)

abbrev digit : ℕ → Char
digit zero = "0"
digit (suc zero) = "1"
digit (suc (suc zero)) = "2"
digit (suc (suc (suc zero))) = "3"
digit (suc (suc (suc (suc zero)))) = "4"
digit (suc (suc (suc (suc (suc zero))))) = "5"
digit (suc (suc (suc (suc (suc (suc zero)))))) = "6"
digit (suc (suc (suc (suc (suc (suc (suc zero))))))) = "7"
digit (suc (suc (suc (suc (suc (suc (suc (suc zero)))))))) = "8"
digit _ = "9"

unfoldable pub digits_onto : ℕ → ℕ → String → String
digits_onto zero n s = s
digits_onto (suc fuel) n s =
    let more = digits_onto fuel (n / 10) (digit (n % 10) ∷ s) in
    if ltb n 10 then digit n ∷ s else more

-- `n.to_string()`; twenty digits hold every `u64`
unfoldable pub to_decimal : ℕ → String
unfolding digits_onto
to_decimal n = digits_onto 20 n []

abbrev hex_digit : ℕ → Char
hex_digit n =
    if ltb n 10
    then digit n
    else if eqb n 10
    then "a"
    else if eqb n 11
    then "b"
    else if eqb n 12
    then "c"
    else if eqb n 13
    then "d"
    else if eqb n 14
    then "e"
    else "f"

-- `{byte:02x}`
unfoldable pub hex_byte : ℕ → String
hex_byte b = hex_digit (b / 16) ∷ hex_digit (b % 16) ∷ []
