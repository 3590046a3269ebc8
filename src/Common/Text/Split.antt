-- ===== src/Common/Text/Split.antt =====
-- `str::split` at one character, and what it makes of a joined text.
use Prim.Native.Nat.{ℕ, zero, suc}
use Prim.Native.Char.{Char, code}
use Prim.Native.String
use Prim.Native.String.{String}
use mathlib.Core.Path.{◌≡◌, refl, sym, ◌∙◌}
use mathlib.Core.Logic.{◌≢◌}
use mathlib.Core.Bool.{Bool, true, false}
use mathlib.Core.List.{List, [], ◌∷◌}
use native.Mathlib.Omega.{arith}
use text.Mathlib.TextLemmas.{nil-append, cons-append, cons-ne-nil}
use your_connector.Common.Tests.{eqb, if◌then◌else◌}

abbrev onto_head : Char → List String → List String
onto_head c [] = []
onto_head c (x ∷ xs) = String.◌∷◌ c x ∷ xs

-- `s.split(d)`: one part more than there are separators
unfoldable pub split : ℕ → String → List String
split d String.[] = String.[] ∷ []
split d (String.◌∷◌ c s) =
    let rest = split d s in if eqb (code c) d then String.[] ∷ rest else onto_head c rest

-- what the n-th `parts.next().unwrap_or_default()` returns
abbrev pub part : ℕ → List String → String
part n [] = String.[]
part zero (x ∷ xs) = x
part (suc n) (x ∷ xs) = part n xs

-- `s.contains(d)`
abbrev pub contains_char : ℕ → String → Bool
contains_char d String.[] = false
contains_char d (String.◌∷◌ c s) = if eqb (code c) d then true else contains_char d s

pub split_whole : (d : ℕ) (s : String) → contains_char d s ≡ false → split d s ≡ s ∷ []
unfolding split
split_whole d String.[] h = refl
split_whole d (String.◌∷◌ c s) h = ground (arith, split_whole d s)

-- A first part without the separator is split off whole.
pub split-append :
    (d : Char) (s t : String)
    → contains_char (code d) s ≡ false
    → split (code d) (String.◌++◌ s (String.◌∷◌ d t)) ≡ s ∷ split (code d) t
unfolding split
split-append d String.[] t h = rw nil-append (ground arith)
split-append d (String.◌∷◌ c s) t h = rw cons-append (ground (arith, split-append d s t))

dot-append : (s : String) → String.◌++◌ "." s ≡ String.◌∷◌ "." s
dot-append s = rw cons-append (rw nil-append)

-- `format!("{a}.{b}.{c}")`
abbrev pub join_three : String → String → String → String
join_three a b c = String.◌++◌ a (String.◌++◌ "." (String.◌++◌ b (String.◌++◌ "." c)))

-- Three parts without dots, joined by dots, are split into the same three.
pub split-join_three :
    (a b c : String)
    → contains_char b'.' a ≡ false
    → contains_char b'.' b ≡ false
    → contains_char b'.' c ≡ false
    → split b'.' (join_three a b c) ≡ a ∷ b ∷ c ∷ []
split-join_three a b c ha hb hc = rw (
  dot-append c,
  dot-append _,
  split-append "." a _ ha,
  split-append "." b c hb,
  split_whole b'.' c hc,
)

pub join_three-not_empty :
    (h : Char) (a b c : String) → (join_three (String.◌∷◌ h a) b c ≢ String.[])
join_three-not_empty h a b c e = cons-ne-nil h _ (sym (cons-append h a _) ∙ e)
