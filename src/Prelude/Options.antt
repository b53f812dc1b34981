-- ===== src/Prelude/Options.antt =====
-- `Option` in do blocks: `none` ends the chain.
use mathlib.Core.Path.{◌≡◌, refl}
use mathlib.Core.Option.{Option, none, some}

infixl 5 ◌>>=◌
abbrev pub ◌>>=◌ {ℓ} : {A B : Type ℓ} → Option A → (A → Option B) → Option B
some value >>= next = next value
none >>= next = none

-- What a chain that gives a result says of its first step.
pub >>=-eq-some {ℓ} :
    {A B : Type ℓ} (first : Option A) (next : A → Option B) {final : B}
    → (first >>= next) ≡ some final
    → (value : A) × (first ≡ some value) × (next value ≡ some final)
>>=-eq-some (some value) next given = (value, refl, given)
>>=-eq-some none next given = cc
