-- ===== src/Protocol/Tests.antt =====
-- src/protocol/handlers.rs and src/protocol/welcome.rs: the theorems at small inputs.
use auth_kademlia_rs.Prelude.{
  ℕ, ◌<◌, ◌≡◌, refl, ◌⊎◌, true, Option, none, some, [], ◌∷◌, arith, Bytes, bytes_discrete,
  replicate,
}
use auth_kademlia_rs.Prelude.KeyMap.{KeyMap}
use auth_kademlia_rs.Prelude.KeyMap.Assoc.{assoc}
use auth_kademlia_rs.Prelude.Results.{ok}
use auth_kademlia_rs.Node.{Node, new}
use auth_kademlia_rs.Storage.{Slot, Store, pos, with_max_storage_bytes}
use auth_kademlia_rs.Storage as Storage
use auth_kademlia_rs.Routing.Table as Table
use auth_kademlia_rs.Routing.Bucket.Laws.{IsPeer}
use auth_kademlia_rs.Routing.Table.Termination.{new-IsTable}
use auth_kademlia_rs.Messages.{RpcMessage}
use auth_kademlia_rs.StoreCheck.{unknown}
use auth_kademlia_rs.Auth.{SignatureVerifierHandler}
use auth_kademlia_rs.Protocol.{Instant, KademliaProtocol, Settings}
use auth_kademlia_rs.Protocol.Upkeep.{replications, IsProtocol, schedule_welcome_if_new-IsProtocol}
use auth_kademlia_rs.Protocol.Welcome.{end_welcome, schedule_welcome_if_new}
use auth_kademlia_rs.Protocol.Handlers.{dispatch_request}
use auth_kademlia_rs.Protocol.Returns.{IsId}
use auth_kademlia_rs.Protocol.Answers.{IsAnswer, dispatch_request-IsAnswer}
use auth_kademlia_rs.Protocol.Authority.{MayChange, dispatch_request-MayChange}

abbrev table : KeyMap Bytes Slot
table = assoc bytes_discrete

-- The id of 20 equal bytes.
abbrev id_of_byte : ℕ → Bytes
id_of_byte n = replicate 20 n

id_of_byte-IsId : (n : ℕ) → n < 256 → IsId (id_of_byte n)
id_of_byte-IsId n h = ground arith

abbrev local_node : Node
local_node = new (id_of_byte 0) none none

abbrev guest : Node
guest = new (id_of_byte 3) (some (49 ∷ [])) (some 4000)

-- Every record is authentic and bound to every key, and every update is authorised.
abbrev open_handler : SignatureVerifierHandler
open_handler = record {
  handle_key_binding_verification = λ key value. ok true;
  handle_signature_verification = λ value. ok true;
  handle_update_verification = λ new old sig. ok true;
  handle_issuer_node_signature_verification = λ value. ok true;
}

abbrev settings : Settings
settings = record {
  signature_handler = open_handler;
  status_list_key = id_of_byte 9;
  record_hash = λ l. l;
}

-- A node that holds the record 1 for the key of fives, and knows nobody.
abbrev held_store : Store table
held_store =
    (Storage.set table (with_max_storage_bytes table (pos 100) 50) 0 (id_of_byte 5) (1 ∷ [])).0

abbrev a_protocol : KademliaProtocol table
a_protocol = record {
  source_node = local_node;
  router = Table.new 0 local_node 2;
  storage = held_store;
  welcome_in_flight = [];
  oldest_pings_in_flight = [];
  tasks = [];
}

abbrev at_seven : Instant
at_seven = record { secs = 7; millis = 7000; nanos = 7_000_000_000 }

a_protocol-IsProtocol : IsProtocol a_protocol
unfolding replications
a_protocol-IsProtocol = record {
  table = new-IsTable 0 2 local_node (omega arith);
  queue = omega arith;
  once = tt;
  waiting = refl;
}

guest-IsPeer : IsPeer guest
unfolding new
guest-IsPeer = (refl, (id_of_byte-IsId 3 (omega arith)).0, refl)

schedule_welcome_if_new-IsProtocol_example :
    (q : KademliaProtocol table) × (schedule_welcome_if_new a_protocol at_seven guest ≡ some q)
    × IsProtocol q
    × ((id : Bytes) → IsProtocol (end_welcome q id))
schedule_welcome_if_new-IsProtocol_example =
    schedule_welcome_if_new-IsProtocol a_protocol at_seven guest guest-IsPeer a_protocol-IsProtocol

-- The sender of threes replaces the record 1 by the record 2.
abbrev an_update : RpcMessage
an_update = RpcMessage.update (id_of_byte 3) (id_of_byte 5) (2 ∷ []) (8 ∷ [])

abbrev a_peer : Bytes × ℕ
a_peer = (49 ∷ [], 4000)

dispatch_request-IsAnswer_example :
    (r : Option RpcMessage × KademliaProtocol table) × (dispatch_request settings a_protocol
        at_seven unknown an_update a_peer
      ≡ some r)
    × IsProtocol r.1
    × IsAnswer an_update r.0
dispatch_request-IsAnswer_example =
    dispatch_request-IsAnswer settings a_protocol at_seven unknown an_update a_peer
      (id_of_byte-IsId 3 (omega arith)) a_protocol-IsProtocol

-- The answer to the update, and the node after it.
updated :
    (r : Option RpcMessage × KademliaProtocol table) × (dispatch_request settings a_protocol
        at_seven unknown an_update a_peer
      ≡ some r)
    × IsProtocol r.1
    × IsAnswer an_update r.0
updated =
    dispatch_request-IsAnswer settings a_protocol at_seven unknown an_update a_peer
      (id_of_byte-IsId 3 (omega arith)) a_protocol-IsProtocol

dispatch_request-MayChange_example :
    (updated.0.1.storage ≡ a_protocol.storage)
    ⊎ MayChange table settings a_protocol.storage at_seven.nanos unknown an_update
        updated.0.1.storage
dispatch_request-MayChange_example =
    dispatch_request-MayChange settings a_protocol at_seven unknown an_update a_peer updated.0
      updated.1
