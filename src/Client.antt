-- ===== src/Client.antt =====
-- src/protocol/client.rs: the requests that a node sends, and what it makes of the answers. What a
-- request gets is the interface `Network`: `call` is the method of that name, of the part Transport,
-- and `parse` reads the text of an address.
pub mod Upkeep
pub mod Stores
pub mod Meeting
pub mod Tests
use auth_kademlia_rs.Prelude.{
  ℕ, Bool, true, false, Option, none, some, List, [], ◌∷◌, map, if◌then◌else◌, Bytes, retain,
}
use auth_kademlia_rs.Prelude.Options.{◌>>=◌}
use auth_kademlia_rs.Prelude.KeyMap.{KeyMap}
use auth_kademlia_rs.Node.{Node, address}
use auth_kademlia_rs.Storage.{Slot}
use auth_kademlia_rs.Routing.Table.{has_failures}
use auth_kademlia_rs.Messages.{StoreStatus, WireNode, RpcMessage}
use auth_kademlia_rs.Crawling.{FindPayload, RawResponse}
use auth_kademlia_rs.Protocol.{Instant, KademliaProtocol}
use auth_kademlia_rs.Protocol.Contacts.{note_alive, note_failure, with_router}
use auth_kademlia_rs.Protocol.Welcome.{schedule_welcome_if_new}
use auth_kademlia_rs.Protocol.Handlers.{Result, is_kept}

pub record Network : Type 1 where
  pub SocketAddr : Type 0
  pub parse : Bytes × ℕ → Option SocketAddr
  pub call : SocketAddr → RpcMessage → Option RpcMessage
  pub spread : ℕ → ℕ

abbrev pub tuple_of : WireNode → Bytes × Option Bytes × Option ℕ
tuple_of w = (w.id, w.ip, w.port)

-- What each method reads in an answer.
abbrev pub pong_id : RpcMessage → Option Bytes
pong_id (RpcMessage.pong id) = some id
pong_id _ = none

abbrev pub store_status : RpcMessage → Option StoreStatus
store_status (RpcMessage.store_result status) = some status
store_status _ = none

abbrev pub update_ok : RpcMessage → Option Bool
update_ok (RpcMessage.update_result b) = some b
update_ok _ = none

abbrev pub update_status_list_ok : RpcMessage → Option Bool
update_status_list_ok (RpcMessage.update_status_list_result b) = some b
update_status_list_ok _ = none

abbrev pub found_nodes : RpcMessage → Option FindPayload
found_nodes (RpcMessage.find_node_result l) = some (FindPayload.nodes (map tuple_of l))
found_nodes _ = none

abbrev pub found_payload : RpcMessage → Option FindPayload
found_payload (RpcMessage.find_value_hit v) = some (FindPayload.value v)
found_payload (RpcMessage.find_hash_hit h) = some (FindPayload.value h)
found_payload (RpcMessage.find_value_nodes l) = some (FindPayload.nodes (map tuple_of l))
found_payload _ = none

abbrev pub or_false : Option Bool → Bool
or_false none = false
or_false (some b) = b

unfoldable pub no_answer : RawResponse
no_answer = (false, FindPayload.empty)

unfoldable pub socket_addr_of : (net : Network) → Node → Option net.SocketAddr
unfolding address
socket_addr_of net peer = do a ← address peer; net.parse a

module _ {m : KeyMap Bytes Slot} (net : Network) where
  unfoldable pub failed : {A : Type 0} → KademliaProtocol m → Instant → Node → A → Result m A
  unfolding note_failure
  failed p now peer result = do
    t ← note_failure net.spread p.router now.millis peer
    some (result, with_router p t)

  unfoldable pub call_ping_addr : KademliaProtocol m → Bytes × ℕ → Bool × Bytes
  call_ping_addr p addr =
      elim (net.parse addr >>= (λ a. net.call a (RpcMessage.ping p.source_node.id)) >>= pong_id) [
        | none ↦ (false, [])
        | some id ↦ (true, id)
      ]

  unfoldable pub call_ping_node : KademliaProtocol m → Instant → Node → Option (KademliaProtocol m)
  unfolding call_ping_addr note_failure address
  call_ping_node p now node = elim (address node) [
    | none ↦ some p
    | some a ↦
        if (call_ping_addr p a).0
        then some p
        else (do t ← note_failure net.spread p.router now.millis node; some (with_router p t))
  ]

  -- A peer without an address, or with one whose IP does not parse, is not asked.
  abbrev pub at_address :
      {A : Type 0}
      → KademliaProtocol m
      → A
      → (net.SocketAddr → Result m A)
      → Option net.SocketAddr
      → Result m A
  at_address p unasked send none = some (unasked, p)
  at_address p unasked send (some a) = send a

  -- After the answer to a store or an update, which shows only that the peer is alive.
  unfoldable pub after_alive :
      {A : Type 0} → KademliaProtocol m → Instant → Node → Option A → Result m (Option A)
  unfolding failed note_alive
  after_alive p now peer none = failed p now peer none
  after_alive p now peer (some r) =
      some (some r, with_router p (note_alive p.router now.millis peer).1)

  -- After the answer to a lookup's request, whose peer is welcome if it is new.
  unfoldable pub after_find :
      KademliaProtocol m → Instant → Node → Option FindPayload → Result m RawResponse
  unfolding failed schedule_welcome_if_new no_answer
  after_find p now peer none = failed p now peer no_answer
  after_find p now peer (some f) = do q ← schedule_welcome_if_new p now peer; some ((true, f), q)

  unfoldable pub request_alive :
      {A : Type 0}
      → KademliaProtocol m
      → Instant
      → Node
      → RpcMessage
      → (RpcMessage → Option A)
      → Result m (Option A)
  unfolding socket_addr_of after_alive
  request_alive p now peer request read =
      at_address p none (λ a. after_alive p now peer (net.call a request >>= read))
        (socket_addr_of net peer)

  unfoldable pub request_find :
      KademliaProtocol m
      → Instant
      → Node
      → RpcMessage
      → (RpcMessage → Option FindPayload)
      → Result m RawResponse
  unfolding socket_addr_of after_find no_answer
  request_find p now peer request read =
      at_address p no_answer (λ a. after_find p now peer (net.call a request >>= read))
        (socket_addr_of net peer)

  unfoldable pub call_store_rpc :
      KademliaProtocol m → Instant → Node → Bytes → Bytes → Result m (Option StoreStatus)
  unfolding request_alive
  call_store_rpc p now peer key value =
      request_alive p now peer (RpcMessage.store p.source_node.id key value) store_status

  unfoldable pub call_store : KademliaProtocol m → Instant → Node → Bytes → Bytes → Result m Bool
  unfolding call_store_rpc
  call_store p now peer key value = do
    r ← call_store_rpc p now peer key value
    some (is_kept r.0, r.1)

  unfoldable pub call_update_rpc_answer :
      KademliaProtocol m → Instant → Node → Bytes → Bytes → Bytes → Result m (Option Bool)
  unfolding request_alive
  call_update_rpc_answer p now peer key value auth_signature =
      request_alive p now peer (RpcMessage.update p.source_node.id key value auth_signature)
        update_ok

  unfoldable pub call_update_rpc :
      KademliaProtocol m → Instant → Node → Bytes → Bytes → Bytes → Result m Bool
  unfolding call_update_rpc_answer
  call_update_rpc p now peer key value auth_signature = do
    r ← call_update_rpc_answer p now peer key value auth_signature
    some (or_false r.0, r.1)

  unfoldable pub call_status_list_update_rpc :
      KademliaProtocol m → Instant → Node → Bytes → Bytes → Result m Bool
  unfolding request_alive
  call_status_list_update_rpc p now peer key value = do
    r ←
        request_alive p now peer (RpcMessage.update_status_list p.source_node.id key value)
          update_status_list_ok
    some (or_false r.0, r.1)

  unfoldable pub call_find_node : KademliaProtocol m → Instant → Node → Node → Result m RawResponse
  unfolding request_find
  call_find_node p now peer target =
      request_find p now peer (RpcMessage.find_node p.source_node.id target.id) found_nodes

  unfoldable pub call_find_value : KademliaProtocol m → Instant → Node → Node → Result m RawResponse
  unfolding request_find
  call_find_value p now peer target =
      request_find p now peer (RpcMessage.find_value p.source_node.id target.id) found_payload

  unfoldable pub call_find_hash : KademliaProtocol m → Instant → Node → Node → Result m RawResponse
  unfolding request_find
  call_find_hash p now peer target =
      request_find p now peer (RpcMessage.find_hash p.source_node.id target.id) found_payload

  unfoldable pub note_no_answer :
      KademliaProtocol m → Instant → List Node → Option (KademliaProtocol m)
  unfolding note_failure
  note_no_answer p now [] = some p
  note_no_answer p now (n ∷ l) = do
    t ← note_failure net.spread p.router now.millis n
    note_no_answer (with_router p t) now l

-- The ids of those among the nodes that are known to fail.
unfoldable pub failing_among : {m : KeyMap Bytes Slot} → KademliaProtocol m → List Node → List Bytes
failing_among p nodes = map (λ n. n.id) (retain (λ n. has_failures p.router n.id) nodes)
