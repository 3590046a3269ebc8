-- ===== src/Common/Text/Trimmed.antt =====
-- The standard library's `str::trim`: a trimmed text is trimmed to itself.
use Prim.Native.Char.{code}
use Prim.Native.String.{String, [], ◌∷◌}
use mathlib.Core.Path.{◌≡◌, refl, ◌∙◌, ap}
use mathlib.Core.Bool.{Bool, false}
use mathlib.Core.Logic.{inl, inr}
use your_connector.Common.Tests.{Bool-cases}
use your_connector.Common.Text.{is_empty, is_whitespace, trim_start, trim_end, trim}

-- whether the text starts with a blank
abbrev blank_start : String → Bool
blank_start [] = false
blank_start (c ∷ s) = is_whitespace (code c)

trim_start-blank_start : (s : String) → blank_start (trim_start s) ≡ false
unfolding trim_start
trim_start-blank_start [] = refl
trim_start-blank_start (c ∷ s) = elim (Bool-cases (is_whitespace (code c))) [
  | inl blank ↦ rw blank (trim_start-blank_start s)
  | inr not_blank ↦ rw not_blank not_blank
]

trim_start_whole : (s : String) → blank_start s ≡ false → trim_start s ≡ s
unfolding trim_start
trim_start_whole [] h = refl
trim_start_whole (c ∷ s) h = rw h refl

trim_end-blank_start : (s : String) → blank_start s ≡ false → blank_start (trim_end s) ≡ false
unfolding trim_end
trim_end-blank_start [] h = refl
trim_end-blank_start (c ∷ s) h = rw h h

trim_end-trim_end : (s : String) → trim_end (trim_end s) ≡ trim_end s
unfolding trim_end
trim_end-trim_end [] = refl
trim_end-trim_end (c ∷ s) = elim (Bool-cases (is_whitespace (code c))) [
  | inl blank ↦ elim (Bool-cases (is_empty (trim_end s))) [
    | inl gone ↦ rw (blank, gone) refl
    | inr left ↦ rw (blank, left) rw (trim_end-trim_end s, blank, left) refl
  ]
  | inr not_blank ↦ rw not_blank rw (trim_end-trim_end s, not_blank) refl
]

pub trim-trim : (s : String) → trim (trim s) ≡ trim s
unfolding trim
trim-trim s =
    ap trim_end (
      trim_start_whole (trim_end (trim_start s))
        (trim_end-blank_start (trim_start s) (trim_start-blank_start s)))
    ∙ trim_end-trim_end (trim_start s)
