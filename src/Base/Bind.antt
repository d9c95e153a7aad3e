-- ===== src/Base/Bind.antt =====
-- Steps that may fault: `none` is a fault, and nothing follows it.
use mathlib.Core.Path.{◌≡◌, refl}
use mathlib.Core.Bool.{Bool, true, false}
use tangent.Base.Tests.{if◌then◌else◌}
use mathlib.Core.Option.{Option, none, some, none-ne-some, some-injective}

infixl 5 ◌>>=◌
abbrev pub ◌>>=◌ {ℓ κ} : {A : Type ℓ} → {B : Type κ} → Option A → (A → Option B) → Option B
none >>= k = none
some a >>= k = k a

-- A step that gave a result, and what followed it.
pub bind-some {ℓ κ} :
    {A : Type ℓ} {B : Type κ} (o : Option A) (k : A → Option B) (b : B)
    → (o >>= k) ≡ some b
    → (a : A) × (o ≡ some a) × (k a ≡ some b)
bind-some none k b e = absurd (none-ne-some b e)
bind-some (some a) k b e = (a, refl, e)

pub if-some {ℓ} :
    {A : Type ℓ} (b : Bool) (x y : A) → (if b then some x else none) ≡ some y → (b ≡ true) × (x ≡ y)
if-some true x y e = (refl, some-injective x y e)
if-some false x y e = absurd (none-ne-some y e)
