-- ===== src/Common/Options.antt =====
-- Code that may stop without a result: a step goes on with the value of the one before.
use nexustal.Common.Basics.{Option, none, some}

infixl 5 ◌>>=◌
abbrev pub ◌>>=◌ {ℓ κ} : {A : Type ℓ} {B : Type κ} → Option A → (A → Option B) → Option B
none >>= k = none
some a >>= k = k a
