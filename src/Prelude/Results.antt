-- ===== src/Prelude/Results.antt =====
-- `Result`: `?` is the bind of a do block.
use mathlib.Core.Path.{◌≡◌, refl}
use mathlib.Core.Bool.{Bool, true, false}
use mathlib.Core.Option.{Option, none, some}

pub data Result {ℓ} (A E : Type ℓ) : Type ℓ where
  err : E → Result A E
  ok : A → Result A E

infixl 5 ◌>>=◌
abbrev pub ◌>>=◌ {ℓ} : {A B E : Type ℓ} → Result A E → (A → Result B E) → Result B E
first >>= next = elim first [ err problem ↦ err problem | ok value ↦ next value ]

abbrev pub ok_or {ℓ} : {A E : Type ℓ} → Option A → E → Result A E
ok_or none e = err e
ok_or (some a) e = ok a

abbrev pub map_err {ℓ} : {A E F : Type ℓ} → (E → F) → Result A E → Result A F
map_err f (ok a) = ok a
map_err f (err e) = err (f e)

-- `unwrap_or(false)`
abbrev pub unwrap_or_false : {E : Type 0} → Result Bool E → Bool
unwrap_or_false (ok b) = b
unwrap_or_false (err e) = false

-- What a chain that succeeds says of its first step.
pub >>=-eq-ok {ℓ} :
    {A B E : Type ℓ} (first : Result A E) (next : A → Result B E) {final : B}
    → (first >>= next) ≡ ok final
    → (value : A) × (first ≡ ok value) × (next value ≡ ok final)
>>=-eq-ok (err problem) next given = cc
>>=-eq-ok (ok value) next given = (value, refl, given)

pub ok_or-eq-ok {ℓ} : {A E : Type ℓ} (o : Option A) (e : E) {a : A} → ok_or o e ≡ ok a → o ≡ some a
ok_or-eq-ok none e h = cc
ok_or-eq-ok (some a) e h = cc

pub map_err-eq-ok {ℓ} :
    {A E F : Type ℓ} (f : E → F) (r : Result A E) {a : A} → map_err f r ≡ ok a → r ≡ ok a
map_err-eq-ok f (ok a) h = cc
map_err-eq-ok f (err e) h = cc

pub unwrap_or_false-eq-true :
    {E : Type 0} (r : Result Bool E) → unwrap_or_false r ≡ true → r ≡ ok true
unwrap_or_false-eq-true (ok b) h = cc
unwrap_or_false-eq-true (err e) h = cc
