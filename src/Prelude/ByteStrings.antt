-- ===== src/Prelude/ByteStrings.antt =====
-- Byte strings, and their equality.
use Prim.Native.Nat.{ℕ, ◌<◌}
use mathlib.Core.Path.{◌≡◌, refl, ap₂}
use mathlib.Core.Logic.{◌≢◌}
use mathlib.Core.Bool.{Bool}
use mathlib.Core.List.{List, [], ◌∷◌}
use native.Mathlib.Decide.{ℕ_discrete}
use native.Mathlib.Omega.{arith}
use auth_kademlia_rs.Prelude.Tests.{holds}
use auth_kademlia_rs.Prelude.Lists.{All}

-- `Vec<u8>`, `&[u8]` and `[u8; N]`: the bytes are numbers, and `AreBytes` bounds them.
abbrev pub Bytes : Type 0
Bytes = List ℕ

abbrev pub AreBytes : Bytes → Type 0
AreBytes = All (λ b. b < 256)

tail_eq : {x y : ℕ} {xs ys : Bytes} → ◌≡◌ {A = Bytes} (x ∷ xs) (y ∷ ys) → xs ≡ ys
tail_eq e = ground arith

head_eq : {x y : ℕ} {xs ys : Bytes} → ◌≡◌ {A = Bytes} (x ∷ xs) (y ∷ ys) → x ≡ y
head_eq e = ground arith

nil-ne-cons : {y : ℕ} {ys : Bytes} → ◌≢◌ {A = Bytes} [] (y ∷ ys)
nil-ne-cons e = cc

cons-ne-nil : {y : ℕ} {ys : Bytes} → ◌≢◌ {A = Bytes} (y ∷ ys) []
cons-ne-nil e = cc

unfoldable pub bytes_discrete : Discrete Bytes
unfolding ℕ_discrete tail_eq head_eq nil-ne-cons cons-ne-nil
bytes_discrete [] [] = yes refl
bytes_discrete [] (y ∷ ys) = no nil-ne-cons
bytes_discrete (x ∷ xs) [] = no cons-ne-nil
bytes_discrete (x ∷ xs) (y ∷ ys) = elim (ℕ_discrete x y) [
  | yes p ↦ elim (bytes_discrete xs ys) [
    | yes q ↦ yes (ap₂ ◌∷◌ p q)
    | no q ↦ no (λ e. q (tail_eq e))
  ]
  | no p ↦ no (λ e. p (head_eq e))
]

abbrev pub bytes_eq : Bytes → Bytes → Bool
bytes_eq a b = holds (bytes_discrete a b)
