-- ===== src/Base/Options.antt =====
-- `?` on an option, as the bind of a do block.
use mathlib.Core.Option.{Option, none, some}
use mathlib.Core.Path.{◌≡◌, refl}

infixl 5 ◌>>=◌
abbrev pub ◌>>=◌ {ℓ κ} : {A : Type ℓ} {B : Type κ} → Option A → (A → Option B) → Option B
none >>= f = none
some a >>= f = f a

-- Where a chain is `some`, so is its first call, and the rest on the value of that.
pub >>=-eq-some {ℓ κ} :
    {A : Type ℓ} {B : Type κ} (first : Option A) (rest : A → Option B) {b : B}
    → first >>= rest ≡ some b
    → (a : A) × (first ≡ some a) × (rest a ≡ some b)
>>=-eq-some none rest e = cc
>>=-eq-some (some a) rest e = (a, refl, e)
