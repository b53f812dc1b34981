-- ===== src/Transport.antt =====
-- src/protocol/transport.rs: requests and their answers. A socket address is the bytes of its IP and
-- its port.
pub mod Call
pub mod Resends
pub mod Receipts
pub mod Pending
pub mod Matching
pub mod Receive
pub mod Once
pub mod Sources
pub mod Handling
pub mod Reception
pub mod Ends
pub mod Tests
use auth_kademlia_rs.Prelude.{ℕ, Bool, true, false, ◌&&◌, ◌==◌, Bytes, bytes_eq}
use auth_kademlia_rs.Messages.{RpcMessage}

abbrev pub Peer : Type 0
Peer = Bytes × ℕ

unfoldable pub peer_eq : Peer → Peer → Bool
peer_eq (ip, port) (ip', port') = bytes_eq ip ip' && port == port'

pub record Frame : Type 0 where
  pub msg_id : ℕ
  pub is_request : Bool
  pub message : RpcMessage

abbrev pub is_received : RpcMessage → Bool
is_received RpcMessage.received = true
is_received _ = false
