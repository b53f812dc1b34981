-- ===== src/Transport/Pending.antt =====
-- src/protocol/transport.rs: the requests that wait for their answers, and which message answers one.
-- The `HashMap` is a function from a message id to its call; the channels and the notification of a
-- call are what is delivered to it.
use auth_kademlia_rs.Prelude.{ℕ, ◌+◌, ◌%◌, ◌^◌, ◌&&◌, Option, none, some, ◌==◌, if◌then◌else◌}
use auth_kademlia_rs.Messages.{RpcMessage}
use auth_kademlia_rs.Messages.Expected.{ExpectedResponse, accepts, after_receipt, for_request}
use auth_kademlia_rs.Transport.{Peer, peer_eq, is_received}

pub record PendingCall : Type 0 where
  pub peer : Peer
  pub expected : ExpectedResponse

abbrev pub PendingMap : Type 0
PendingMap = ℕ → Option PendingCall

unfoldable pub insert : PendingMap → ℕ → PendingCall → PendingMap
insert pending msg_id call q = if q == msg_id then some call else pending q

-- Also what `PendingGuard` does when `call` ends.
unfoldable pub remove : PendingMap → ℕ → PendingMap
remove pending msg_id q = if q == msg_id then none else pending q

-- The entry that `call` makes for its request.
unfoldable pub pending_for : Peer → RpcMessage → PendingCall
unfolding for_request
pending_for peer message = record { peer = peer; expected = for_request message }

-- `next_msg_id.fetch_add(1)`
unfoldable pub next_id : ℕ → ℕ × ℕ
next_id counter = (counter, (counter + 1) % 2 ^ 32)

-- What a response that arrived does: the call with this id is notified of a receipt, or gets its
-- answer, or the message is discarded.
pub data Delivery : Type 0 where
  notified : ℕ → Delivery
  replied : ℕ → RpcMessage → Delivery
  discarded : Delivery

unfoldable pub on_receipt : Option PendingCall → Peer → ℕ → Delivery
unfolding peer_eq after_receipt
on_receipt none peer msg_id = discarded
on_receipt (some call) peer msg_id =
    if peer_eq call.peer peer && after_receipt call.expected then notified msg_id else discarded

unfoldable pub on_reply :
    Option PendingCall → PendingMap → Peer → ℕ → RpcMessage → PendingMap × Delivery
unfolding peer_eq accepts remove
on_reply none pending peer msg_id message = (pending, discarded)
on_reply (some call) pending peer msg_id message =
    if peer_eq call.peer peer && accepts call.expected message
    then (remove pending msg_id, replied msg_id message)
    else (pending, discarded)

unfoldable pub on_response : PendingMap → Peer → ℕ → RpcMessage → PendingMap × Delivery
unfolding on_receipt on_reply
on_response pending peer msg_id message =
    if is_received message
    then (pending, on_receipt (pending msg_id) peer msg_id)
    else on_reply (pending msg_id) pending peer msg_id message
