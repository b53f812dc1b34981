-- ===== src/Transport/Sources.antt =====
-- src/protocol/transport.rs: who is welcome after a response.
use auth_kademlia_rs.Prelude.{ℕ, inl, inr, ◌&&◌, Option, none, some, Bool-cases}
use auth_kademlia_rs.Node.{Node}
use auth_kademlia_rs.Routing.Bucket.Laws.{IsPeer}
use auth_kademlia_rs.Messages.{RpcMessage}
use auth_kademlia_rs.Protocol.Returns.{source_of-IsPeer}
use auth_kademlia_rs.Protocol.Answers.{HasIds}
use auth_kademlia_rs.Messages.Expected.{accepts, after_receipt}
use auth_kademlia_rs.Transport.{Peer, is_received, peer_eq}
use auth_kademlia_rs.Transport.Pending.{PendingMap, PendingCall, on_response, on_receipt, on_reply}
use auth_kademlia_rs.Transport.Receive.{pong_source, source_of_delivery}

-- A node that is welcome has an id of 20 bytes.
abbrev pub IsSource : Option Node → Type 0
IsSource none = Unit {0}
IsSource (some n) = IsPeer n

pong_source-IsSource :
    (message : RpcMessage) (peer : Peer) → HasIds message → IsSource (pong_source message peer)
pong_source-IsSource (RpcMessage.pong id) (ip, port) h = source_of-IsPeer (id, ip, port) h
pong_source-IsSource RpcMessage.received peer h = tt
pong_source-IsSource (RpcMessage.ping x) peer h = tt
pong_source-IsSource (RpcMessage.store x y z) peer h = tt
pong_source-IsSource (RpcMessage.store_result x) peer h = tt
pong_source-IsSource (RpcMessage.update x y z w) peer h = tt
pong_source-IsSource (RpcMessage.update_result x) peer h = tt
pong_source-IsSource (RpcMessage.update_status_list x y z) peer h = tt
pong_source-IsSource (RpcMessage.update_status_list_result x) peer h = tt
pong_source-IsSource (RpcMessage.find_node x y) peer h = tt
pong_source-IsSource (RpcMessage.find_node_result x) peer h = tt
pong_source-IsSource (RpcMessage.find_value x y) peer h = tt
pong_source-IsSource (RpcMessage.find_value_nodes x) peer h = tt
pong_source-IsSource (RpcMessage.find_value_hit x) peer h = tt
pong_source-IsSource (RpcMessage.leave x) peer h = tt
pong_source-IsSource (RpcMessage.find_hash x y) peer h = tt
pong_source-IsSource (RpcMessage.find_hash_hit x) peer h = tt

receipt-IsSource :
    (o : Option PendingCall) (peer : Peer) (id : ℕ)
    → IsSource (source_of_delivery (on_receipt o peer id) peer)
unfolding on_receipt
receipt-IsSource none peer id = tt
receipt-IsSource (some call) peer id =
    elim (Bool-cases (peer_eq call.peer peer && after_receipt call.expected)) [
      | inl e ↦ rw e tt
      | inr e ↦ rw e tt
    ]

reply-IsSource :
    (o : Option PendingCall) (pending : PendingMap) (peer : Peer) (id : ℕ) (message : RpcMessage)
    → HasIds message
    → IsSource (source_of_delivery (on_reply o pending peer id message).1 peer)
unfolding on_reply
reply-IsSource none pending peer id message h = tt
reply-IsSource (some call) pending peer id message h =
    elim (Bool-cases (peer_eq call.peer peer && accepts call.expected message)) [
      | inl e ↦ rw e (pong_source-IsSource message peer h)
      | inr e ↦ rw e tt
    ]

pub response-IsSource :
    (pending : PendingMap) (peer : Peer) (id : ℕ) (message : RpcMessage)
    → HasIds message
    → IsSource (source_of_delivery (on_response pending peer id message).1 peer)
unfolding on_response
response-IsSource pending peer id message h = elim (Bool-cases (is_received message)) [
  | inl e ↦ rw e (receipt-IsSource (pending id) peer id)
  | inr e ↦ rw e (reply-IsSource (pending id) pending peer id message h)
]
