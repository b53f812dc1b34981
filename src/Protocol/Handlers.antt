-- ===== src/Protocol/Handlers.antt =====
-- src/protocol/handlers.rs: what a node does with each request. A sender's address is the bytes of its
-- IP and its port. `verify_record` is called without the cache, which does not change its results
-- (Auth.Transparency), and `copy` is what the lookup of an empty replica ends with.
use auth_kademlia_rs.Prelude.Options.{◌>>=◌}
use auth_kademlia_rs.Prelude.{
  ℕ, Bool, true, false, not, ◌&&◌, Option, none, some, List, map, if◌then◌else◌, Bytes, bytes_eq,
}
use mathlib.Core.Option.{map as option_map}
use auth_kademlia_rs.Prelude.KeyMap.{KeyMap}
use auth_kademlia_rs.Node.{Node, new, from_id, same_home_as}
use auth_kademlia_rs.Storage.{Slot, StorageWriteStatus, get}
use auth_kademlia_rs.Storage as Storage
use auth_kademlia_rs.Routing.Table.{remove_contact}
use auth_kademlia_rs.Routing.Table.Health.{get_contact}
use auth_kademlia_rs.Routing.Table.Neighbors.{find_neighbors_to_advertise}
use auth_kademlia_rs.Messages.{RpcMessage, StoreStatus, to_wire}
use auth_kademlia_rs.StoreCheck.{Handler, NetworkCopy, rpc_store}
use auth_kademlia_rs.Auth.{is_bound_to_key, verify_rotation, verify_issuer_signed}
use auth_kademlia_rs.Auth.Cache.{domain_of, check_signature}
use auth_kademlia_rs.Protocol.{Instant, KademliaProtocol, Settings, FindValueResult}
use auth_kademlia_rs.Protocol.Contacts.{with_router}
use auth_kademlia_rs.Protocol.Welcome.{schedule_welcome_if_new}

-- A sender: its id, its IP and its port.
abbrev pub Sender : Type 0
Sender = Bytes × Bytes × ℕ

abbrev pub source_of : Sender → Node
source_of (id, ip, port) = new id (some ip) (some port)

-- `verify_record` without a cache
unfoldable pub verify_for_key : Settings → Bytes → Bytes → Bool
unfolding is_bound_to_key domain_of check_signature
verify_for_key c key value =
    is_bound_to_key c.signature_handler c.status_list_key key value
    && check_signature c.signature_handler (domain_of c.status_list_key key) value

unfoldable pub key_binding_is_valid : Settings → Bytes → Bytes → Bool
unfolding is_bound_to_key
key_binding_is_valid c key value = is_bound_to_key c.signature_handler c.status_list_key key value

-- The checks that the STORE handler calls.
unfoldable pub store_handler : Settings → Handler
unfolding verify_for_key key_binding_is_valid
store_handler c = record {
  status_list_key = c.status_list_key;
  key_binding_is_valid = key_binding_is_valid c;
  verify_for_key = verify_for_key c;
}

-- `== StorageWriteStatus::CapacityExceeded`
abbrev pub is_capacity_exceeded : StorageWriteStatus → Bool
is_capacity_exceeded StorageWriteStatus.stored = false
is_capacity_exceeded StorageWriteStatus.already_stored = false
is_capacity_exceeded StorageWriteStatus.conflict = false
is_capacity_exceeded StorageWriteStatus.capacity_exceeded = true

-- The statuses after which the sender of a STORE is welcome.
abbrev pub is_kept : Option StoreStatus → Bool
is_kept (some StoreStatus.stored) = true
is_kept (some StoreStatus.already_stored) = true
is_kept _ = false

abbrev pub is_none : Option Bytes → Bool
is_none none = true
is_none (some v) = false

abbrev pub hash_answer : Settings → FindValueResult → RpcMessage
hash_answer c (FindValueResult.value v) = RpcMessage.find_hash_hit (c.record_hash v)
hash_answer c (FindValueResult.nodes ns) = RpcMessage.find_value_nodes (map to_wire ns)

abbrev pub value_answer : FindValueResult → RpcMessage
value_answer (FindValueResult.value v) = RpcMessage.find_value_hit v
value_answer (FindValueResult.nodes ns) = RpcMessage.find_value_nodes (map to_wire ns)

-- A method's result, with the state that it leaves.
abbrev pub Result : KeyMap Bytes Slot → Type 0 → Type 0
Result m A = Option (A × KademliaProtocol m)

module _ {m : KeyMap Bytes Slot} where
  unfoldable pub rpc_ping : KademliaProtocol m → Instant → Sender → Result m Bytes
  unfolding schedule_welcome_if_new
  rpc_ping p now sender = do
    q ← schedule_welcome_if_new p now (source_of sender)
    some (q.source_node.id, q)

  unfoldable pub handle_store :
      Settings
      → KademliaProtocol m
      → Instant
      → NetworkCopy
      → Sender
      → Bytes
      → Bytes
      → Result m (Option StoreStatus)
  unfolding rpc_store store_handler schedule_welcome_if_new
  handle_store c p now copy sender key value =
      let r = rpc_store m (store_handler c) p.storage now.nanos key value copy in
      let p' = record p { storage = r.1 } in
      if is_kept r.0
      then (do q ← schedule_welcome_if_new p' now (source_of sender); some (r.0, q))
      else some (r.0, p')

  -- The write that ends both updates, once authorised.
  unfoldable pub write_update :
      KademliaProtocol m → Instant → Sender → Bytes → Bytes → Result m Bool
  unfolding schedule_welcome_if_new
  write_update p now sender key value = do
    q ← schedule_welcome_if_new p now (source_of sender)
    let w = Storage.set m q.storage now.nanos key value
    some (not (is_capacity_exceeded w.1), record q { storage = w.0 })

  unfoldable pub replace_held :
      Settings
      → KademliaProtocol m
      → Instant
      → Sender
      → Bytes
      → Bytes
      → Bytes
      → Option Bytes
      → Result m Bool
  unfolding write_update verify_rotation
  replace_held c p now sender key value auth_signature none = some (false, p)
  replace_held c p now sender key value auth_signature (some old) =
      if bytes_eq old value
      then some (true, p)
      else if verify_rotation c.signature_handler key value old auth_signature
      then write_update p now sender key value
      else some (false, p)

  unfoldable pub rpc_update :
      Settings → KademliaProtocol m → Instant → Sender → Bytes → Bytes → Bytes → Result m Bool
  unfolding replace_held
  rpc_update c p now sender key value auth_signature =
      if bytes_eq key c.status_list_key
      then some (false, p)
      else replace_held c p now sender key value auth_signature (get m p.storage now.nanos key)

  unfoldable pub rpc_update_status_list :
      Settings → KademliaProtocol m → Instant → Sender → Bytes → Bytes → Result m Bool
  unfolding write_update verify_issuer_signed
  rpc_update_status_list c p now sender key value =
      if not (bytes_eq key c.status_list_key)
      then some (false, p)
      else if is_none (get m p.storage now.nanos key)
      then some (false, p)
      else if verify_issuer_signed c.signature_handler value
      then write_update p now sender key value
      else some (false, p)

  unfoldable pub advertise : KademliaProtocol m → Instant → Sender → Bytes → Result m (List Node)
  advertise p now sender key = do
    found ← find_neighbors_to_advertise now.secs p.router (from_id key) (some (source_of sender))
    some (found.0, with_router p found.1)

  unfoldable pub rpc_find_node :
      KademliaProtocol m → Instant → Sender → Bytes → Result m (List Node)
  unfolding schedule_welcome_if_new advertise
  rpc_find_node p now sender key = do
    q ← schedule_welcome_if_new p now (source_of sender)
    advertise q now sender key

  unfoldable pub find_neighbors_result :
      KademliaProtocol m → Instant → Sender → Bytes → Result m FindValueResult
  unfolding advertise
  find_neighbors_result p now sender key = do
    r ← advertise p now sender key
    some (FindValueResult.nodes r.0, r.1)

  unfoldable pub answer_held :
      Settings
      → KademliaProtocol m
      → Instant
      → Sender
      → Bytes
      → Option Bytes
      → Result m FindValueResult
  unfolding key_binding_is_valid find_neighbors_result
  answer_held c p now sender key none = find_neighbors_result p now sender key
  answer_held c p now sender key (some held) =
      if key_binding_is_valid c key held
      then some (FindValueResult.value held, p)
      else find_neighbors_result p now sender key

  unfoldable pub rpc_find_value :
      Settings → KademliaProtocol m → Instant → Sender → Bytes → Result m FindValueResult
  unfolding schedule_welcome_if_new answer_held
  rpc_find_value c p now sender key = do
    q ← schedule_welcome_if_new p now (source_of sender)
    answer_held c q now sender key (get m q.storage now.nanos key)

  unfoldable pub rpc_find_hash :
      Settings → KademliaProtocol m → Instant → Sender → Bytes → Result m RpcMessage
  unfolding rpc_find_value
  rpc_find_hash c p now sender key = do
    r ← rpc_find_value c p now sender key
    some (hash_answer c r.0, r.1)

  unfoldable pub remove_leaving :
      KademliaProtocol m → Option Node → Node → Option (KademliaProtocol m)
  remove_leaving p none source = some p
  remove_leaving p (some contact) source =
      if same_home_as contact source
      then (do t ← remove_contact p.router contact; some (with_router p t))
      else some p

  unfoldable pub rpc_leave : KademliaProtocol m → Sender → Option (KademliaProtocol m)
  unfolding remove_leaving
  rpc_leave p sender = remove_leaving p (get_contact p.router sender.0) (source_of sender)

  -- The answer to a request, if it gets one.
  unfoldable pub dispatch_request :
      Settings
      → KademliaProtocol m
      → Instant
      → NetworkCopy
      → RpcMessage
      → Bytes × ℕ
      → Result m (Option RpcMessage)
  unfolding rpc_ping handle_store rpc_update rpc_update_status_list rpc_find_node rpc_find_value
      rpc_find_hash rpc_leave
  dispatch_request c p now copy (RpcMessage.ping id) (ip, port) = do
    r ← rpc_ping p now (id, ip, port)
    some (some (RpcMessage.pong r.0), r.1)
  dispatch_request c p now copy (RpcMessage.store id key value) (ip, port) = do
    r ← handle_store c p now copy (id, ip, port) key value
    some (option_map RpcMessage.store_result r.0, r.1)
  dispatch_request c p now copy (RpcMessage.update id key value auth_signature) (ip, port) = do
    r ← rpc_update c p now (id, ip, port) key value auth_signature
    some (some (RpcMessage.update_result r.0), r.1)
  dispatch_request c p now copy (RpcMessage.update_status_list id key value) (ip, port) = do
    r ← rpc_update_status_list c p now (id, ip, port) key value
    some (some (RpcMessage.update_status_list_result r.0), r.1)
  dispatch_request c p now copy (RpcMessage.find_node id key) (ip, port) = do
    r ← rpc_find_node p now (id, ip, port) key
    some (some (RpcMessage.find_node_result (map to_wire r.0)), r.1)
  dispatch_request c p now copy (RpcMessage.find_value id key) (ip, port) = do
    r ← rpc_find_value c p now (id, ip, port) key
    some (some (value_answer r.0), r.1)
  dispatch_request c p now copy (RpcMessage.find_hash id key) (ip, port) = do
    r ← rpc_find_hash c p now (id, ip, port) key
    some (some r.0, r.1)
  dispatch_request c p now copy (RpcMessage.leave id) (ip, port) = do
    q ← rpc_leave p (id, ip, port)
    some (none, q)
  dispatch_request c p now copy _ (ip, port) = some (none, p)
