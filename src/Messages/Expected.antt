-- ===== src/Messages/Expected.antt =====
-- src/protocol/messages.rs: which answer a request expects.
use auth_kademlia_rs.Prelude.{◌≡◌, refl, ◌≢◌, Bool, true, false, Option, none, some, [], ◌∷◌, Bytes}
use auth_kademlia_rs.Messages.{RpcMessage, carried_record}

pub data ExpectedResponse : Type 0 where
  pong : ExpectedResponse
  store_result : ExpectedResponse
  update_result : ExpectedResponse
  update_status_list_result : ExpectedResponse
  find_node_result : ExpectedResponse
  find_value_result : ExpectedResponse
  find_hash_result : ExpectedResponse
  no_response : ExpectedResponse

unfoldable pub for_request : RpcMessage → ExpectedResponse
for_request (RpcMessage.ping a) = pong
for_request (RpcMessage.pong a) = no_response
for_request (RpcMessage.store a b c) = store_result
for_request (RpcMessage.store_result a) = no_response
for_request (RpcMessage.update a b c d) = update_result
for_request (RpcMessage.update_result a) = no_response
for_request (RpcMessage.update_status_list a b c) = update_status_list_result
for_request (RpcMessage.update_status_list_result a) = no_response
for_request (RpcMessage.find_node a b) = find_node_result
for_request (RpcMessage.find_node_result a) = no_response
for_request (RpcMessage.find_value a b) = find_value_result
for_request (RpcMessage.find_value_nodes a) = no_response
for_request (RpcMessage.find_value_hit a) = no_response
for_request (RpcMessage.leave a) = no_response
for_request (RpcMessage.find_hash a b) = find_hash_result
for_request (RpcMessage.find_hash_hit a) = no_response
for_request RpcMessage.received = no_response

unfoldable pub accepts : ExpectedResponse → RpcMessage → Bool
accepts pong (RpcMessage.pong a) = true
accepts store_result (RpcMessage.store_result a) = true
accepts update_result (RpcMessage.update_result a) = true
accepts update_status_list_result (RpcMessage.update_status_list_result a) = true
accepts find_node_result (RpcMessage.find_node_result a) = true
accepts find_value_result (RpcMessage.find_value_hit a) = true
accepts find_value_result (RpcMessage.find_value_nodes a) = true
accepts find_hash_result (RpcMessage.find_hash_hit a) = true
accepts find_hash_result (RpcMessage.find_value_nodes a) = true
accepts _ _ = false

-- Whether the request gets a receipt before its answer.
unfoldable pub after_receipt : ExpectedResponse → Bool
after_receipt store_result = true
after_receipt update_result = true
after_receipt update_status_list_result = true
after_receipt _ = false

unfoldable pub name : ExpectedResponse → Bytes
name pong = 80 ∷ 111 ∷ 110 ∷ 103 ∷ []
name store_result = 83 ∷ 116 ∷ 111 ∷ 114 ∷ 101 ∷ 82 ∷ 101 ∷ 115 ∷ 117 ∷ 108 ∷ 116 ∷ []
name update_result = 85 ∷ 112 ∷ 100 ∷ 97 ∷ 116 ∷ 101 ∷ 82 ∷ 101 ∷ 115 ∷ 117 ∷ 108 ∷ 116 ∷ []
name update_status_list_result =
    85 ∷ 112 ∷ 100 ∷ 97 ∷ 116 ∷ 101 ∷ 83 ∷ 116 ∷ 97 ∷ 116 ∷ 117 ∷ 115 ∷ 76 ∷ 105 ∷ 115 ∷ 116 ∷ 82
    ∷ 101 ∷ 115 ∷ 117 ∷ 108 ∷ 116 ∷ []
name find_node_result =
    70 ∷ 105 ∷ 110 ∷ 100 ∷ 78 ∷ 111 ∷ 100 ∷ 101 ∷ 82 ∷ 101 ∷ 115 ∷ 117 ∷ 108 ∷ 116 ∷ []
name find_value_result =
    70 ∷ 105 ∷ 110 ∷ 100 ∷ 86 ∷ 97 ∷ 108 ∷ 117 ∷ 101 ∷ 72 ∷ 105 ∷ 116 ∷ 124 ∷ 70 ∷ 105 ∷ 110 ∷ 100
    ∷ 86 ∷ 97 ∷ 108 ∷ 117 ∷ 101 ∷ 78 ∷ 111 ∷ 100 ∷ 101 ∷ 115 ∷ []
name find_hash_result =
    70 ∷ 105 ∷ 110 ∷ 100 ∷ 72 ∷ 97 ∷ 115 ∷ 104 ∷ 72 ∷ 105 ∷ 116 ∷ 124 ∷ 70 ∷ 105 ∷ 110 ∷ 100 ∷ 86
    ∷ 97 ∷ 108 ∷ 117 ∷ 101 ∷ 78 ∷ 111 ∷ 100 ∷ 101 ∷ 115 ∷ []
name no_response = 110 ∷ 111 ∷ 32 ∷ 114 ∷ 101 ∷ 115 ∷ 112 ∷ 111 ∷ 110 ∷ 115 ∷ 101 ∷ []

abbrev pub is_some : Option Bytes → Bool
is_some none = false
is_some (some v) = true

-- A request gets a receipt before its answer exactly if it carries a record.
pub after_receipt-for_request :
    (m : RpcMessage) → after_receipt (for_request m) ≡ is_some (carried_record m)
unfolding after_receipt for_request carried_record
after_receipt-for_request (RpcMessage.ping a) = refl
after_receipt-for_request (RpcMessage.pong a) = refl
after_receipt-for_request (RpcMessage.store a b c) = refl
after_receipt-for_request (RpcMessage.store_result a) = refl
after_receipt-for_request (RpcMessage.update a b c d) = refl
after_receipt-for_request (RpcMessage.update_result a) = refl
after_receipt-for_request (RpcMessage.update_status_list a b c) = refl
after_receipt-for_request (RpcMessage.update_status_list_result a) = refl
after_receipt-for_request (RpcMessage.find_node a b) = refl
after_receipt-for_request (RpcMessage.find_node_result a) = refl
after_receipt-for_request (RpcMessage.find_value a b) = refl
after_receipt-for_request (RpcMessage.find_value_nodes a) = refl
after_receipt-for_request (RpcMessage.find_value_hit a) = refl
after_receipt-for_request (RpcMessage.leave a) = refl
after_receipt-for_request (RpcMessage.find_hash a b) = refl
after_receipt-for_request (RpcMessage.find_hash_hit a) = refl
after_receipt-for_request RpcMessage.received = refl

false-ne-true : false ≢ true
false-ne-true h = cc

-- An answer that is accepted is itself no request that could be answered.
pub accepts-no_response :
    (m : RpcMessage) (e : ExpectedResponse) → accepts e m ≡ true → for_request m ≡ no_response
unfolding accepts for_request
accepts-no_response (RpcMessage.ping a) pong h = absurd (false-ne-true h)
accepts-no_response (RpcMessage.ping a) store_result h = absurd (false-ne-true h)
accepts-no_response (RpcMessage.ping a) update_result h = absurd (false-ne-true h)
accepts-no_response (RpcMessage.ping a) update_status_list_result h = absurd (false-ne-true h)
accepts-no_response (RpcMessage.ping a) find_node_result h = absurd (false-ne-true h)
accepts-no_response (RpcMessage.ping a) find_value_result h = absurd (false-ne-true h)
accepts-no_response (RpcMessage.ping a) find_hash_result h = absurd (false-ne-true h)
accepts-no_response (RpcMessage.ping a) no_response h = absurd (false-ne-true h)
accepts-no_response (RpcMessage.pong a) e h = refl
accepts-no_response (RpcMessage.store a b c) pong h = absurd (false-ne-true h)
accepts-no_response (RpcMessage.store a b c) store_result h = absurd (false-ne-true h)
accepts-no_response (RpcMessage.store a b c) update_result h = absurd (false-ne-true h)
accepts-no_response (RpcMessage.store a b c) update_status_list_result h = absurd (false-ne-true h)
accepts-no_response (RpcMessage.store a b c) find_node_result h = absurd (false-ne-true h)
accepts-no_response (RpcMessage.store a b c) find_value_result h = absurd (false-ne-true h)
accepts-no_response (RpcMessage.store a b c) find_hash_result h = absurd (false-ne-true h)
accepts-no_response (RpcMessage.store a b c) no_response h = absurd (false-ne-true h)
accepts-no_response (RpcMessage.store_result a) e h = refl
accepts-no_response (RpcMessage.update a b c d) pong h = absurd (false-ne-true h)
accepts-no_response (RpcMessage.update a b c d) store_result h = absurd (false-ne-true h)
accepts-no_response (RpcMessage.update a b c d) update_result h = absurd (false-ne-true h)
accepts-no_response (RpcMessage.update a b c d) update_status_list_result h =
    absurd (false-ne-true h)
accepts-no_response (RpcMessage.update a b c d) find_node_result h = absurd (false-ne-true h)
accepts-no_response (RpcMessage.update a b c d) find_value_result h = absurd (false-ne-true h)
accepts-no_response (RpcMessage.update a b c d) find_hash_result h = absurd (false-ne-true h)
accepts-no_response (RpcMessage.update a b c d) no_response h = absurd (false-ne-true h)
accepts-no_response (RpcMessage.update_result a) e h = refl
accepts-no_response (RpcMessage.update_status_list a b c) pong h = absurd (false-ne-true h)
accepts-no_response (RpcMessage.update_status_list a b c) store_result h = absurd (false-ne-true h)
accepts-no_response (RpcMessage.update_status_list a b c) update_result h = absurd (false-ne-true h)
accepts-no_response (RpcMessage.update_status_list a b c) update_status_list_result h =
    absurd (false-ne-true h)
accepts-no_response (RpcMessage.update_status_list a b c) find_node_result h =
    absurd (false-ne-true h)
accepts-no_response (RpcMessage.update_status_list a b c) find_value_result h =
    absurd (false-ne-true h)
accepts-no_response (RpcMessage.update_status_list a b c) find_hash_result h =
    absurd (false-ne-true h)
accepts-no_response (RpcMessage.update_status_list a b c) no_response h = absurd (false-ne-true h)
accepts-no_response (RpcMessage.update_status_list_result a) e h = refl
accepts-no_response (RpcMessage.find_node a b) pong h = absurd (false-ne-true h)
accepts-no_response (RpcMessage.find_node a b) store_result h = absurd (false-ne-true h)
accepts-no_response (RpcMessage.find_node a b) update_result h = absurd (false-ne-true h)
accepts-no_response (RpcMessage.find_node a b) update_status_list_result h =
    absurd (false-ne-true h)
accepts-no_response (RpcMessage.find_node a b) find_node_result h = absurd (false-ne-true h)
accepts-no_response (RpcMessage.find_node a b) find_value_result h = absurd (false-ne-true h)
accepts-no_response (RpcMessage.find_node a b) find_hash_result h = absurd (false-ne-true h)
accepts-no_response (RpcMessage.find_node a b) no_response h = absurd (false-ne-true h)
accepts-no_response (RpcMessage.find_node_result a) e h = refl
accepts-no_response (RpcMessage.find_value a b) pong h = absurd (false-ne-true h)
accepts-no_response (RpcMessage.find_value a b) store_result h = absurd (false-ne-true h)
accepts-no_response (RpcMessage.find_value a b) update_result h = absurd (false-ne-true h)
accepts-no_response (RpcMessage.find_value a b) update_status_list_result h =
    absurd (false-ne-true h)
accepts-no_response (RpcMessage.find_value a b) find_node_result h = absurd (false-ne-true h)
accepts-no_response (RpcMessage.find_value a b) find_value_result h = absurd (false-ne-true h)
accepts-no_response (RpcMessage.find_value a b) find_hash_result h = absurd (false-ne-true h)
accepts-no_response (RpcMessage.find_value a b) no_response h = absurd (false-ne-true h)
accepts-no_response (RpcMessage.find_value_nodes a) e h = refl
accepts-no_response (RpcMessage.find_value_hit a) e h = refl
accepts-no_response (RpcMessage.leave a) e h = refl
accepts-no_response (RpcMessage.find_hash a b) pong h = absurd (false-ne-true h)
accepts-no_response (RpcMessage.find_hash a b) store_result h = absurd (false-ne-true h)
accepts-no_response (RpcMessage.find_hash a b) update_result h = absurd (false-ne-true h)
accepts-no_response (RpcMessage.find_hash a b) update_status_list_result h =
    absurd (false-ne-true h)
accepts-no_response (RpcMessage.find_hash a b) find_node_result h = absurd (false-ne-true h)
accepts-no_response (RpcMessage.find_hash a b) find_value_result h = absurd (false-ne-true h)
accepts-no_response (RpcMessage.find_hash a b) find_hash_result h = absurd (false-ne-true h)
accepts-no_response (RpcMessage.find_hash a b) no_response h = absurd (false-ne-true h)
accepts-no_response (RpcMessage.find_hash_hit a) e h = refl
accepts-no_response RpcMessage.received e h = refl
