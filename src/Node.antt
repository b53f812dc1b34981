-- ===== src/Node.antt =====
-- src/node.rs: a peer, its 160-bit id and the XOR distance. The id is its bytes, and `long_id` the
-- number they spell, as the constructor computes it. An IP address is the bytes of its text.
pub mod Distance
pub mod Heap
pub mod Tests
use Prim.Native.Nat.{bit_xor}
use auth_kademlia_rs.Prelude.{
  ℕ, Bool, ◌&&◌, Option, none, some, Bytes, bytes_eq, ◌==◌, true, false, [], ◌∷◌, ◌+◌, ◌*◌,
}

abbrev pub id_len : ℕ
id_len = 20

pub record Node : Type 0 where
  pub id : Bytes
  pub ip : Option Bytes
  pub port : Option ℕ
  pub long_id : ℕ

-- `U256::from_big_endian`
unfoldable pub from_big_endian : ℕ → Bytes → ℕ
from_big_endian acc [] = acc
from_big_endian acc (b ∷ bs) = from_big_endian (acc * 256 + b) bs

unfoldable pub id_to_u256 : Bytes → ℕ
unfolding from_big_endian
id_to_u256 id = from_big_endian 0 id

unfoldable pub new : Bytes → Option Bytes → Option ℕ → Node
unfolding id_to_u256
new id ip port = record { id = id; ip = ip; port = port; long_id = id_to_u256 id }

unfoldable pub from_id : Bytes → Node
unfolding new
from_id id = new id none none

unfoldable pub distance_to : Node → Node → ℕ
distance_to a b = bit_xor a.long_id b.long_id

abbrev pub ip_eq : Option Bytes → Option Bytes → Bool
ip_eq none none = true
ip_eq (some a) (some b) = bytes_eq a b
ip_eq _ _ = false

abbrev pub port_eq : Option ℕ → Option ℕ → Bool
port_eq none none = true
port_eq (some a) (some b) = a == b
port_eq _ _ = false

unfoldable pub same_home_as : Node → Node → Bool
same_home_as a b = ip_eq a.ip b.ip && port_eq a.port b.port

abbrev pub address_of : Option Bytes → Option ℕ → Option (Bytes × ℕ)
address_of (some ip) (some port) = some (ip, port)
address_of _ _ = none

unfoldable pub address : Node → Option (Bytes × ℕ)
address a = address_of a.ip a.port
