-- ===== src/Protocol/Answers.antt =====
-- src/protocol/handlers.rs: every request is dealt with, and answered with what its sender expects.
use auth_kademlia_rs.Prelude.{ℕ, ◌≡◌, refl, ◌⊎◌, inl, inr, true, Option, none, some, map, Bytes}
use mathlib.Core.Option.{map as option_map}
use auth_kademlia_rs.Prelude.KeyMap.{KeyMap}
use auth_kademlia_rs.Storage.{Slot}
use auth_kademlia_rs.Messages.{RpcMessage, StoreStatus, to_wire}
use auth_kademlia_rs.Messages.Expected.{for_request, accepts, store_result, no_response}
use auth_kademlia_rs.StoreCheck.{NetworkCopy}
use auth_kademlia_rs.Protocol.{Instant, KademliaProtocol, Settings, FindValueResult}
use auth_kademlia_rs.Protocol.Upkeep.{IsProtocol}
use auth_kademlia_rs.Protocol.Handlers.{value_answer, hash_answer, rpc_find_hash, dispatch_request}
use auth_kademlia_rs.Protocol.Returns.{
  IsId, rpc_ping-Returns, handle_store-Returns, rpc_update-Returns, rpc_update_status_list-Returns,
  rpc_find_node-Returns, rpc_find_value-Returns, rpc_leave_total,
}

-- The ids of a message, whose type in the source is 20 bytes.
abbrev pub HasIds : RpcMessage → Type 0
HasIds (RpcMessage.ping id) = IsId id
HasIds (RpcMessage.pong id) = IsId id
HasIds (RpcMessage.store id key value) = IsId id
HasIds (RpcMessage.update id key value auth_signature) = IsId id
HasIds (RpcMessage.update_status_list id key value) = IsId id
HasIds (RpcMessage.find_node id key) = IsId id × IsId key
HasIds (RpcMessage.find_value id key) = IsId id × IsId key
HasIds (RpcMessage.find_hash id key) = IsId id × IsId key
HasIds _ = Unit {0}

-- The answer is one that the request expects; there may be none to a STORE, and to a message that
-- expects none.
abbrev pub IsAnswer : RpcMessage → Option RpcMessage → Type 0
IsAnswer request none = (for_request request ≡ store_result) ⊎ (for_request request ≡ no_response)
IsAnswer request (some answer) = accepts (for_request request) answer ≡ true

value_answer_lem :
    (id key : Bytes) (r : FindValueResult)
    → IsAnswer (RpcMessage.find_value id key) (some (value_answer r))
unfolding for_request accepts
value_answer_lem id key (FindValueResult.value v) = refl
value_answer_lem id key (FindValueResult.nodes l) = refl

hash_answer_lem :
    (c : Settings) (id key : Bytes) (r : FindValueResult)
    → IsAnswer (RpcMessage.find_hash id key) (some (hash_answer c r))
unfolding for_request accepts
hash_answer_lem c id key (FindValueResult.value v) = refl
hash_answer_lem c id key (FindValueResult.nodes l) = refl

store_answer_lem :
    (id key value : Bytes) (o : Option StoreStatus)
    → IsAnswer (RpcMessage.store id key value) (option_map RpcMessage.store_result o)
unfolding for_request accepts
store_answer_lem id key value none = inl refl
store_answer_lem id key value (some status) = refl

module _ {m : KeyMap Bytes Slot} where
  -- Every message whose ids have 20 bytes is dealt with: each index is in bounds, the routing table
  -- stays well formed and the queue of replications within its bound; and the answer is one that the
  -- request expects. Only a STORE, and a message that expects no answer, may get none.
  pub dispatch_request-IsAnswer :
      (c : Settings) (p : KademliaProtocol m) (now : Instant) (copy : NetworkCopy)
      (request : RpcMessage) (peer : Bytes × ℕ)
      → HasIds request
      → IsProtocol p
      → (r : Option RpcMessage × KademliaProtocol m) × (dispatch_request c p now copy request peer
          ≡ some r)
        × IsProtocol r.1
        × IsAnswer request r.0
  unfolding dispatch_request rpc_find_hash for_request accepts
  dispatch_request-IsAnswer c p now copy (RpcMessage.ping id) (ip, port) h i =
      let (r, e, j) = rpc_ping-Returns p now (id, ip, port) h i in
      ((some (RpcMessage.pong r.0), r.1), rw e refl, j, refl)
  dispatch_request-IsAnswer c p now copy (RpcMessage.store id key value) (ip, port) h i =
      let (r, e, j) = handle_store-Returns c p now copy (id, ip, port) key value h i in
      (
        (option_map RpcMessage.store_result r.0, r.1),
        rw e refl,
        j,
        store_answer_lem id key value r.0,
      )
  dispatch_request-IsAnswer c p now copy (RpcMessage.update id key value auth) (ip, port) h i =
      let (r, e, j) = rpc_update-Returns c p now (id, ip, port) key value auth h i in
      ((some (RpcMessage.update_result r.0), r.1), rw e refl, j, refl)
  dispatch_request-IsAnswer c p now copy (RpcMessage.update_status_list id key value) (ip, port) h
        i =
      let (r, e, j) = rpc_update_status_list-Returns c p now (id, ip, port) key value h i in
      ((some (RpcMessage.update_status_list_result r.0), r.1), rw e refl, j, refl)
  dispatch_request-IsAnswer c p now copy (RpcMessage.find_node id key) (ip, port) h i =
      let (r, e, j) = rpc_find_node-Returns p now (id, ip, port) key h.0 h.1 i in
      ((some (RpcMessage.find_node_result (map to_wire r.0)), r.1), rw e refl, j, refl)
  dispatch_request-IsAnswer c p now copy (RpcMessage.find_value id key) (ip, port) h i =
      let (r, e, j) = rpc_find_value-Returns c p now (id, ip, port) key h.0 h.1 i in
      ((some (value_answer r.0), r.1), rw e refl, j, value_answer_lem id key r.0)
  dispatch_request-IsAnswer c p now copy (RpcMessage.find_hash id key) (ip, port) h i =
      let (r, e, j) = rpc_find_value-Returns c p now (id, ip, port) key h.0 h.1 i in
      ((some (hash_answer c r.0), r.1), rw e refl, j, hash_answer_lem c id key r.0)
  dispatch_request-IsAnswer c p now copy (RpcMessage.leave id) (ip, port) h i =
      let (q, e, j) = rpc_leave_total p (id, ip, port) i in ((none, q), rw e refl, j, inr refl)
  dispatch_request-IsAnswer c p now copy (RpcMessage.pong a) (ip, port) h i =
      ((none, p), refl, i, inr refl)
  dispatch_request-IsAnswer c p now copy (RpcMessage.store_result a) (ip, port) h i =
      ((none, p), refl, i, inr refl)
  dispatch_request-IsAnswer c p now copy (RpcMessage.update_result a) (ip, port) h i =
      ((none, p), refl, i, inr refl)
  dispatch_request-IsAnswer c p now copy (RpcMessage.update_status_list_result a) (ip, port) h i =
      ((none, p), refl, i, inr refl)
  dispatch_request-IsAnswer c p now copy (RpcMessage.find_node_result a) (ip, port) h i =
      ((none, p), refl, i, inr refl)
  dispatch_request-IsAnswer c p now copy (RpcMessage.find_value_nodes a) (ip, port) h i =
      ((none, p), refl, i, inr refl)
  dispatch_request-IsAnswer c p now copy (RpcMessage.find_value_hit a) (ip, port) h i =
      ((none, p), refl, i, inr refl)
  dispatch_request-IsAnswer c p now copy (RpcMessage.find_hash_hit a) (ip, port) h i =
      ((none, p), refl, i, inr refl)
  dispatch_request-IsAnswer c p now copy RpcMessage.received (ip, port) h i =
      ((none, p), refl, i, inr refl)
