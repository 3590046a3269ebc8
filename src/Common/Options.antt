-- ===== src/Common/Options.antt =====
-- The `?` operator on `Option`, for do blocks. A file takes these or those of `Results`.
use mathlib.Core.Bool.{Bool, true, false}
use mathlib.Core.Option.{Option, none, some}

infixl 5 ◌>>=◌ ◌>>◌
abbrev pub ◌>>=◌ {ℓ} : {A B : Type ℓ} → Option A → (A → Option B) → Option B
none >>= f = none
some a >>= f = f a

abbrev pub ◌>>◌ {ℓ} : {A B : Type ℓ} → Option A → Option B → Option B
m >> k = m >>= λ _. k

-- `if refused { return None }`
abbrev pub refuse {ℓ} : Bool → Option (Unit {ℓ})
refuse true = none
refuse false = some tt

-- `.or_else(|| next)`
abbrev pub or_else {ℓ} : {A : Type ℓ} → Option A → Option A → Option A
or_else none next = next
or_else (some a) next = some a

abbrev pub unwrap_or {ℓ} : {A : Type ℓ} → Option A → A → A
unwrap_or none a = a
unwrap_or (some b) a = b

abbrev pub map_option {ℓ} : {A B : Type ℓ} → (A → B) → Option A → Option B
map_option f none = none
map_option f (some a) = some (f a)
