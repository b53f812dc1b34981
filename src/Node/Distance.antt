-- ===== src/Node/Distance.antt =====
-- src/node.rs: the XOR metric on ids. Distinct ids are never at the same distance from a target, so
-- the order by distance is total on ids.
use Prim.Native.Nat.{bit_xor, digits, differ, bit_xor-bitwise}
use auth_kademlia_rs.Prelude.{
  ℕ, zero, suc, ◌+◌, ◌-◌, ◌*◌, ◌/◌, ◌%◌, ◌≤◌, ◌<◌, ◌^◌, ◌≡◌, refl, Option, [], ◌∷◌, arith, Bytes,
  AreBytes, length,
}
use auth_kademlia_rs.Node.{id_len, new, from_big_endian, id_to_u256, distance_to, from_id}

differ_eq : (a b : ℕ) → differ a b ≡ (a - b) + (b - a)
differ_eq zero b = omega arith
differ_eq (suc a) zero = omega arith
differ_eq (suc a) (suc b) = omega (arith, differ_eq a b)

abbrev xor_digits : ℕ → ℕ → ℕ → ℕ
xor_digits n a b = digits (λ b. b) differ n a b

xor_digits_fuel : (n m a b : ℕ) → a ≤ n → a ≤ m → xor_digits n a b ≡ xor_digits m a b
xor_digits_fuel zero zero a b p q = refl
xor_digits_fuel zero (suc m) zero b p q = refl
xor_digits_fuel zero (suc m) (suc a) b p q = absurd (omega arith)
xor_digits_fuel (suc n) zero zero b p q = refl
xor_digits_fuel (suc n) zero (suc a) b p q = absurd (omega arith)
xor_digits_fuel (suc n) (suc m) zero b p q = refl
xor_digits_fuel (suc n) (suc m) (suc a) b p q =
    rw (xor_digits_fuel n m (suc a / 2) (b / 2) (omega arith) (omega arith))

-- The lowest digit, and the rest.
bit_xor_step :
    (a b : ℕ) → bit_xor a b ≡ bit_xor (a / 2) (b / 2) * 2 + ((a % 2 - b % 2) + (b % 2 - a % 2))
bit_xor_step zero b = omega (arith, bit_xor-bitwise 0 b, bit_xor-bitwise 0 (b / 2))
bit_xor_step (suc a) b = omega (
  arith,
  bit_xor-bitwise (suc a) b,
  bit_xor-bitwise (suc a / 2) (b / 2),
  xor_digits_fuel a (suc a / 2) (suc a / 2) (b / 2) (omega arith) (omega arith),
  differ_eq (suc a % 2) (b % 2),
)

-- Exclusive or with a number can be undone.
bit_xor_cancel_fuel : (n a b t : ℕ) → a ≤ n → b ≤ n → bit_xor a t ≡ bit_xor b t → a ≡ b
bit_xor_cancel_fuel zero a b t p q e = omega arith
bit_xor_cancel_fuel (suc n) zero zero t p q e = refl
bit_xor_cancel_fuel (suc n) zero (suc b) t p q e = omega (
  arith,
  bit_xor_step 0 t,
  bit_xor_step (suc b) t,
  bit_xor_cancel_fuel n 0 (suc b / 2) (t / 2) (omega arith) (omega arith)
      (omega (arith, bit_xor_step 0 t, bit_xor_step (suc b) t)),
)
bit_xor_cancel_fuel (suc n) (suc a) zero t p q e = omega (
  arith,
  bit_xor_step (suc a) t,
  bit_xor_step 0 t,
  bit_xor_cancel_fuel n ((suc a) / 2) (0 / 2) (t / 2) (omega arith) (omega arith)
      (omega (arith, bit_xor_step (suc a) t, bit_xor_step 0 t)),
)
bit_xor_cancel_fuel (suc n) (suc a) (suc b) t p q e = omega (
  arith,
  bit_xor_step (suc a) t,
  bit_xor_step (suc b) t,
  bit_xor_cancel_fuel n ((suc a) / 2) ((suc b) / 2) (t / 2) (omega arith) (omega arith)
      (omega (arith, bit_xor_step (suc a) t, bit_xor_step (suc b) t)),
)

bit_xor_cancel : (a b t : ℕ) → bit_xor a t ≡ bit_xor b t → a ≡ b
bit_xor_cancel a b t e = bit_xor_cancel_fuel (a + b) a b t (omega arith) (omega arith) e

-- Two spellings of equal length give one number only if their heads and their bytes agree.
pub from_big_endian_injective :
    (a b : Bytes) (m n : ℕ)
    → AreBytes a
    → AreBytes b
    → length a ≡ length b
    → from_big_endian m a ≡ from_big_endian n b
    → (m ≡ n) × (a ≡ b)
unfolding from_big_endian
from_big_endian_injective [] [] m n ha hb l e = (e, refl)
from_big_endian_injective [] (y ∷ b) m n ha hb l e = absurd (omega arith)
from_big_endian_injective (x ∷ a) [] m n ha hb l e = absurd (omega arith)
from_big_endian_injective (x ∷ a) (y ∷ b) m n ha hb l e =
    let r = from_big_endian_injective a b (m * 256 + x) (n * 256 + y) ha.1 hb.1 (omega arith) e in
    let p : m ≡ n = omega (arith, r.0, ha.0, hb.0) in
    let q : x ≡ y = omega (arith, r.0, ha.0, hb.0) in (p, rw (q, r.1))

-- Two peers whose ids have `id_len` bytes and which are at one distance from a target have one id.
pub distance_to_injective :
    (a b t : Bytes) (ip_a ip_b : Option Bytes) (port_a port_b : Option ℕ)
    → AreBytes a
    → AreBytes b
    → length a ≡ id_len
    → length b ≡ id_len
    → distance_to (new a ip_a port_a) (from_id t) ≡ distance_to (new b ip_b port_b) (from_id t)
    → a ≡ b
unfolding distance_to new from_id id_to_u256
distance_to_injective a b t ip_a ip_b port_a port_b ha hb la lb e =
    (from_big_endian_injective a b 0 0 ha hb (omega arith)
      (bit_xor_cancel (from_big_endian 0 a) (from_big_endian 0 b) (from_big_endian 0 t) e)).1

-- The least number that `n` more bytes after a number below `c` cannot spell.
ceiling : ℕ → ℕ → ℕ
ceiling c zero = c
ceiling c (suc n) = ceiling (c * 256) n

from_big_endian_below :
    (l : Bytes) (n c acc : ℕ)
    → AreBytes l
    → length l ≡ n
    → acc < c
    → from_big_endian acc l < ceiling c n
unfolding from_big_endian ceiling
from_big_endian_below [] zero c acc h e p = p
from_big_endian_below [] (suc n) c acc h e p = absurd (omega arith)
from_big_endian_below (b ∷ l) zero c acc h e p = absurd (omega arith)
from_big_endian_below (b ∷ l) (suc n) c acc h e p =
    from_big_endian_below l n (c * 256) (acc * 256 + b) h.1 (omega arith) (omega (arith, h.0))

-- The number of an id is one of 160 bits.
pub id_to_u256_bound : (id : Bytes) → AreBytes id → length id ≡ id_len → id_to_u256 id ≤ 2 ^ 160 - 1
unfolding id_to_u256 ceiling
id_to_u256_bound id h e = omega (arith, from_big_endian_below id 20 1 0 h e (omega arith))
