-- ===== src/Client/Tests.antt =====
-- src/protocol/client.rs: the theorems at two small nodes.
use auth_kademlia_rs.Prelude.{
  ℕ, ◌<◌, ◌≡◌, refl, true, Option, none, some, [], ◌∷◌, arith, Bytes, bytes_discrete, replicate,
}
use auth_kademlia_rs.Prelude.KeyMap.{KeyMap}
use auth_kademlia_rs.Prelude.KeyMap.Assoc.{assoc}
use auth_kademlia_rs.Prelude.Results.{ok}
use auth_kademlia_rs.Node.{Node, new}
use auth_kademlia_rs.Storage.{Slot, Store, pos, with_max_storage_bytes}
use auth_kademlia_rs.Storage as Storage
use auth_kademlia_rs.Routing.Table as Table
use auth_kademlia_rs.Routing.Bucket.Laws.{IsPeer}
use auth_kademlia_rs.Routing.Table.Termination.{new-IsTable}
use auth_kademlia_rs.Messages.{RpcMessage}
use auth_kademlia_rs.StoreCheck.{unknown}
use auth_kademlia_rs.Auth.{SignatureVerifierHandler}
use auth_kademlia_rs.Protocol.{Instant, KademliaProtocol, Settings}
use auth_kademlia_rs.Protocol.Upkeep.{replications, IsProtocol}
use auth_kademlia_rs.Protocol.Handlers.{dispatch_request}
use auth_kademlia_rs.Protocol.Returns.{IsId}
use auth_kademlia_rs.Protocol.Answers.{IsAnswer, dispatch_request-IsAnswer}
use auth_kademlia_rs.Protocol.Handlers.{handle_store}
use auth_kademlia_rs.Client.{Network, socket_addr_of, call_store_rpc}
use auth_kademlia_rs.Client.Meeting.{Gives, call_store_rpc-handle_store}
use auth_kademlia_rs.Messages.{StoreStatus}
use auth_kademlia_rs.Node.{address}

abbrev table : KeyMap Bytes Slot
table = assoc bytes_discrete

-- The id of 20 equal bytes.
abbrev id_of_byte : ℕ → Bytes
id_of_byte n = replicate 20 n

id_of_byte-IsId : (n : ℕ) → n < 256 → IsId (id_of_byte n)
id_of_byte-IsId n h = ground arith

abbrev local_node : Node
local_node = new (id_of_byte 0) none none

abbrev guest : Node
guest = new (id_of_byte 3) (some (49 ∷ [])) (some 4000)

-- Every record is authentic and bound to every key, and every update is authorised.
abbrev open_handler : SignatureVerifierHandler
open_handler = record {
  handle_key_binding_verification = λ key value. ok true;
  handle_signature_verification = λ value. ok true;
  handle_update_verification = λ new old sig. ok true;
  handle_issuer_node_signature_verification = λ value. ok true;
}

abbrev settings : Settings
settings = record {
  signature_handler = open_handler;
  status_list_key = id_of_byte 9;
  record_hash = λ l. l;
}

-- A node that holds the record 1 for the key of fives, and knows nobody.
abbrev held_store : Store table
held_store =
    (Storage.set table (with_max_storage_bytes table (pos 100) 50) 0 (id_of_byte 5) (1 ∷ [])).0

abbrev a_protocol : KademliaProtocol table
a_protocol = record {
  source_node = local_node;
  router = Table.new 0 local_node 2;
  storage = held_store;
  welcome_in_flight = [];
  oldest_pings_in_flight = [];
  tasks = [];
}

abbrev at_seven : Instant
at_seven = record { secs = 7; millis = 7000; nanos = 7_000_000_000 }

a_protocol-IsProtocol : IsProtocol a_protocol
unfolding replications
a_protocol-IsProtocol = record {
  table = new-IsTable 0 2 local_node (omega arith);
  queue = omega arith;
  once = tt;
  waiting = refl;
}

guest-IsPeer : IsPeer guest
unfolding new
guest-IsPeer = (refl, (id_of_byte-IsId 3 (omega arith)).0, refl)

-- A node of zeros, with the endpoint at which the other knows it, is sent a record.
abbrev a_store : RpcMessage
a_store = RpcMessage.store (id_of_byte 0) (id_of_byte 5) (2 ∷ [])

-- The answer to the STORE, and the node after it.
served :
    (r : Option RpcMessage × KademliaProtocol table) × (dispatch_request settings a_protocol
        at_seven unknown a_store
        (50 ∷ [], 4000)
      ≡ some r)
    × IsProtocol r.1
    × IsAnswer a_store r.0
served =
    dispatch_request-IsAnswer settings a_protocol at_seven unknown a_store (50 ∷ [], 4000)
      (id_of_byte-IsId 0 (omega arith)) a_protocol-IsProtocol

-- The network brings that answer back.
abbrev reliable : Network
reliable = record {
  SocketAddr = Bytes × ℕ;
  parse = λ a. some a;
  call = λ a request. served.0.0;
  spread = λ n. n;
}

guest_endpoint : socket_addr_of reliable guest ≡ some (49 ∷ [], 4000)
unfolding socket_addr_of address new
guest_endpoint = refl

call_store_rpc-handle_store_example :
    (status : Option StoreStatus) × (handle_store settings a_protocol at_seven unknown
        (id_of_byte 0, 50 ∷ [], 4000)
        (id_of_byte 5)
        (2 ∷ [])
      ≡ some (status, served.0.1))
    × Gives reliable
        (call_store_rpc reliable a_protocol at_seven guest (id_of_byte 5) (2 ∷ []))
        status
unfolding new
call_store_rpc-handle_store_example =
    call_store_rpc-handle_store reliable a_protocol at_seven guest (id_of_byte 5) (2 ∷ [])
      (49 ∷ [], 4000) settings a_protocol at_seven unknown (50 ∷ []) 4000 served.0 guest_endpoint
      guest-IsPeer a_protocol-IsProtocol served.1 refl
