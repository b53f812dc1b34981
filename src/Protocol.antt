-- ===== src/Protocol.antt =====
-- src/protocol/mod.rs: the state that the methods of `KademliaProtocol` share. A method returns the
-- state that it leaves; `none` is an index out of bounds in the routing table. The list
-- `tasks` keeps what the tasks do that it starts and that have not ended, the latest first. The sets of
-- the requests in flight are lists of ids.
pub mod Contacts
pub mod Welcome
pub mod Handlers
pub mod Upkeep
pub mod Returns
pub mod Answers
pub mod Writes
pub mod Reads
pub mod Authority
pub mod Tests
use auth_kademlia_rs.Prelude.{ℕ, Bool, List, Bytes, bytes_eq, any}
use auth_kademlia_rs.Prelude.KeyMap.{KeyMap}
use auth_kademlia_rs.Node.{Node}
use auth_kademlia_rs.Storage.{Slot, Store}
use auth_kademlia_rs.Routing.Table.{RoutingTable}
use auth_kademlia_rs.Auth.{SignatureVerifierHandler}

-- An instant, in the units that the parts of the state count in.
pub record Instant : Type 0 where
  pub secs : ℕ
  pub millis : ℕ
  pub nanos : ℕ

-- A task that a method starts: the records that a node should hold are sent to it, or a contact
-- is pinged.
pub data Task : Type 0 where
  replicate_to : Node → Task
  ping_oldest : Node → Task

-- What does not change while a node runs: the verifier of records, the digest of `STATUS_LIST_KEY`,
-- and SHA-256.
pub record Settings : Type 0 where
  pub signature_handler : SignatureVerifierHandler
  pub status_list_key : Bytes
  pub record_hash : Bytes → Bytes

pub record KademliaProtocol (m : KeyMap Bytes Slot) : Type 0 where
  pub source_node : Node
  pub router : RoutingTable
  pub storage : Store m
  pub welcome_in_flight : List Bytes
  pub oldest_pings_in_flight : List Bytes
  pub tasks : List Task

pub data FindValueResult : Type 0 where
  nodes : List Node → FindValueResult
  value : Bytes → FindValueResult

-- `contains_key` of a set of ids
abbrev pub holds_id : List Bytes → Bytes → Bool
holds_id ids id = any (λ q. bytes_eq q id) ids
