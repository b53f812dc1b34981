-- ===== src/Messages.antt =====
-- src/protocol/messages.rs: the messages of the protocol, and the record that one carries. The
-- fields of a message stand in the order of the source.
pub mod Expected
use auth_kademlia_rs.Prelude.{ℕ, Bool, Option, none, some, List, [], ◌∷◌, Bytes}
use auth_kademlia_rs.Node.{Node}
use auth_kademlia_rs.Node as Node
use auth_kademlia_rs.Storage.{StorageWriteStatus}

pub data StoreStatus : Type 0 where
  stored : StoreStatus
  already_stored : StoreStatus
  conflict : StoreStatus
  capacity_exceeded : StoreStatus
  invalid_record : StoreStatus

unfoldable pub from_write_status : StorageWriteStatus → StoreStatus
from_write_status StorageWriteStatus.stored = stored
from_write_status StorageWriteStatus.already_stored = already_stored
from_write_status StorageWriteStatus.conflict = conflict
from_write_status StorageWriteStatus.capacity_exceeded = capacity_exceeded

pub record WireNode : Type 0 where
  pub id : Bytes
  pub ip : Option Bytes
  pub port : Option ℕ

unfoldable pub to_wire : Node → WireNode
to_wire n = record { id = n.id; ip = n.ip; port = n.port }

unfoldable pub from_wire : WireNode → Node
from_wire w = Node.new w.id w.ip w.port

pub data RpcMessage : Type 0 where
  ping : Bytes → RpcMessage
  pong : Bytes → RpcMessage
  store : Bytes → Bytes → Bytes → RpcMessage
  store_result : StoreStatus → RpcMessage
  update : Bytes → Bytes → Bytes → Bytes → RpcMessage
  update_result : Bool → RpcMessage
  update_status_list : Bytes → Bytes → Bytes → RpcMessage
  update_status_list_result : Bool → RpcMessage
  find_node : Bytes → Bytes → RpcMessage
  find_node_result : List WireNode → RpcMessage
  find_value : Bytes → Bytes → RpcMessage
  find_value_nodes : List WireNode → RpcMessage
  find_value_hit : Bytes → RpcMessage
  leave : Bytes → RpcMessage
  find_hash : Bytes → Bytes → RpcMessage
  find_hash_hit : Bytes → RpcMessage
  received : RpcMessage

unfoldable pub carried_record : RpcMessage → Option Bytes
carried_record (store sender_id key value) = some value
carried_record (update sender_id key value auth_signature) = some value
carried_record (update_status_list sender_id key value) = some value
carried_record (ping a) = none
carried_record (pong a) = none
carried_record (store_result a) = none
carried_record (update_result a) = none
carried_record (update_status_list_result a) = none
carried_record (find_node a b) = none
carried_record (find_node_result a) = none
carried_record (find_value a b) = none
carried_record (find_value_nodes a) = none
carried_record (find_value_hit a) = none
carried_record (leave a) = none
carried_record (find_hash a b) = none
carried_record (find_hash_hit a) = none
carried_record received = none

-- The name in a log line, as bytes.
unfoldable pub rpc_message_name : RpcMessage → Bytes
rpc_message_name (ping a) = 80 ∷ 105 ∷ 110 ∷ 103 ∷ []
rpc_message_name (pong a) = 80 ∷ 111 ∷ 110 ∷ 103 ∷ []
rpc_message_name (store a b c) = 83 ∷ 116 ∷ 111 ∷ 114 ∷ 101 ∷ []
rpc_message_name (store_result a) =
    83 ∷ 116 ∷ 111 ∷ 114 ∷ 101 ∷ 82 ∷ 101 ∷ 115 ∷ 117 ∷ 108 ∷ 116 ∷ []
rpc_message_name (update a b c d) = 85 ∷ 112 ∷ 100 ∷ 97 ∷ 116 ∷ 101 ∷ []
rpc_message_name (update_result a) =
    85 ∷ 112 ∷ 100 ∷ 97 ∷ 116 ∷ 101 ∷ 82 ∷ 101 ∷ 115 ∷ 117 ∷ 108 ∷ 116 ∷ []
rpc_message_name (update_status_list a b c) =
    85 ∷ 112 ∷ 100 ∷ 97 ∷ 116 ∷ 101 ∷ 83 ∷ 116 ∷ 97 ∷ 116 ∷ 117 ∷ 115 ∷ 76 ∷ 105 ∷ 115 ∷ 116 ∷ []
rpc_message_name (update_status_list_result a) =
    85 ∷ 112 ∷ 100 ∷ 97 ∷ 116 ∷ 101 ∷ 83 ∷ 116 ∷ 97 ∷ 116 ∷ 117 ∷ 115 ∷ 76 ∷ 105 ∷ 115 ∷ 116 ∷ 82
    ∷ 101 ∷ 115 ∷ 117 ∷ 108 ∷ 116 ∷ []
rpc_message_name (find_node a b) = 70 ∷ 105 ∷ 110 ∷ 100 ∷ 78 ∷ 111 ∷ 100 ∷ 101 ∷ []
rpc_message_name (find_node_result a) =
    70 ∷ 105 ∷ 110 ∷ 100 ∷ 78 ∷ 111 ∷ 100 ∷ 101 ∷ 82 ∷ 101 ∷ 115 ∷ 117 ∷ 108 ∷ 116 ∷ []
rpc_message_name (find_value a b) = 70 ∷ 105 ∷ 110 ∷ 100 ∷ 86 ∷ 97 ∷ 108 ∷ 117 ∷ 101 ∷ []
rpc_message_name (find_value_nodes a) =
    70 ∷ 105 ∷ 110 ∷ 100 ∷ 86 ∷ 97 ∷ 108 ∷ 117 ∷ 101 ∷ 78 ∷ 111 ∷ 100 ∷ 101 ∷ 115 ∷ []
rpc_message_name (find_value_hit a) =
    70 ∷ 105 ∷ 110 ∷ 100 ∷ 86 ∷ 97 ∷ 108 ∷ 117 ∷ 101 ∷ 72 ∷ 105 ∷ 116 ∷ []
rpc_message_name (leave a) = 76 ∷ 101 ∷ 97 ∷ 118 ∷ 101 ∷ []
rpc_message_name (find_hash a b) = 70 ∷ 105 ∷ 110 ∷ 100 ∷ 72 ∷ 97 ∷ 115 ∷ 104 ∷ []
rpc_message_name (find_hash_hit a) =
    70 ∷ 105 ∷ 110 ∷ 100 ∷ 72 ∷ 97 ∷ 115 ∷ 104 ∷ 72 ∷ 105 ∷ 116 ∷ []
rpc_message_name received = 82 ∷ 101 ∷ 99 ∷ 101 ∷ 105 ∷ 118 ∷ 101 ∷ 100 ∷ []
