-- ===== src/Base/Options.antt =====
-- The value of an option.
use mathlib.Core.Path.{◌≡◌, ap}
use mathlib.Core.Option.{Option, none, some}

value_of {ℓ} : {A : Type ℓ} → A → Option A → A
value_of a none = a
value_of a (some x) = x

pub some-injective {ℓ} : {A : Type ℓ} (a b : A) → some a ≡ some b → a ≡ b
unfolding value_of
some-injective a b e = ap (value_of a) e
