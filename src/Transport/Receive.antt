-- ===== src/Transport/Receive.antt =====
-- src/protocol/transport.rs: `handle_datagram`. The decoding of a frame is the parameter `decode`, as
-- bincode is a library. A STORE that waits for a lookup is kept in `waiting` until `end_store`
-- handles it with what the lookup ended with. The frames sent and the deliveries to the calls of this
-- node are lists, the latest last.
use auth_kademlia_rs.Prelude.Options.{◌>>=◌}
use auth_kademlia_rs.Prelude.{
  ℕ, ◌*◌, Bool, true, false, not, ◌&&◌, Option, none, some, List, [], ◌∷◌, ◌++◌, ltb, ◌==◌,
  if◌then◌else◌, Bytes, bytes_eq, any, remove_first,
}
use auth_kademlia_rs.Prelude.KeyMap.{KeyMap}
use auth_kademlia_rs.Node.{Node, new}
use auth_kademlia_rs.Storage.{Slot}
use auth_kademlia_rs.Fragmentation.{
  ReassemblyMap, FragHeader, parse_fragment, accept_fragment, frag_chunk_size, max_message_size,
  sweep,
}
use auth_kademlia_rs.Messages.{RpcMessage, carried_record}
use auth_kademlia_rs.StoreCheck.{NetworkCopy, unknown, take_slot, drop_slot, store_needs_lookup}
use auth_kademlia_rs.Protocol.{Instant, KademliaProtocol, Settings}
use auth_kademlia_rs.Protocol.Welcome.{schedule_welcome_if_new}
use auth_kademlia_rs.Protocol.Handlers.{dispatch_request, store_handler}
use auth_kademlia_rs.Transport.{Peer, Frame, peer_eq}
use auth_kademlia_rs.Transport.Pending.{PendingMap, Delivery, replied, on_response}

-- The sender of a request that carries a record, and the hash of the request.
abbrev pub RequestKey : Type 0
RequestKey = Peer × Bytes

abbrev pub is_request_key : RequestKey → RequestKey → Bool
is_request_key a b = peer_eq a.0 b.0 && bytes_eq a.1 b.1

-- A STORE that waits for its lookup.
pub record Waiting : Type 0 where
  pub key : RequestKey
  pub frame : Frame

abbrev pub needs_lookup : RpcMessage → (Bytes → Bool) → Bool
needs_lookup (RpcMessage.store id key value) needs = needs key
needs_lookup _ needs = false

-- The node that a Pong is from.
abbrev pub pong_source : RpcMessage → Peer → Option Node
pong_source (RpcMessage.pong id) (ip, port) = some (new id (some ip) (some port))
pong_source _ peer = none

abbrev pub is_none : Option Bytes → Bool
is_none none = true
is_none (some v) = false

-- Only a response that is delivered to its call makes its sender known.
abbrev pub source_of_delivery : Delivery → Peer → Option Node
source_of_delivery (replied id message) peer = pong_source message peer
source_of_delivery _ peer = none

module _ (m : KeyMap Bytes Slot) (dec : Discrete Peer) (decode : Bytes → Option Frame)
    (c : Settings) where
  pub record Receiver : Type 0 where
    pub protocol : KademliaProtocol m
    pub pending : PendingMap
    pub reassembly : ReassemblyMap dec
    pub last_reassembly_gc : ℕ
    pub requests_in_progress : List RequestKey
    pub store_lookups : ℕ
    pub waiting : List Waiting
    pub sent : List (Peer × Frame)
    pub delivered : List Delivery

  unfoldable pub gc_reassembly : Receiver → ℕ → Receiver
  unfolding sweep
  gc_reassembly r nanos =
      let swept = sweep dec nanos r.last_reassembly_gc r.reassembly in
      record r { last_reassembly_gc = swept.0; reassembly = swept.1 }

  unfoldable pub answer : Receiver → Peer → ℕ → Option RpcMessage → Receiver
  answer r peer msg_id none = r
  answer r peer msg_id (some message) = record r {
    sent = r.sent ++ (peer, record { msg_id = msg_id; is_request = false; message = message }) ∷ [];
  }

  -- `InProgress::start`, where the request is not in progress, and the end of `InProgress`
  abbrev pub start : Receiver → RequestKey → Receiver
  start r key = record r { requests_in_progress = key ∷ r.requests_in_progress }

  abbrev pub stop : Receiver → RequestKey → Receiver
  stop r key = record r {
    requests_in_progress = remove_first (λ k. is_request_key k key) r.requests_in_progress;
  }

  -- `dispatch_request`, then `answer`
  unfoldable pub handle_and_answer :
      Receiver → Instant → NetworkCopy → Peer → Frame → Option Receiver
  unfolding dispatch_request answer
  handle_and_answer r now copy peer frame = do
    handled ← dispatch_request c r.protocol now copy frame.message peer
    some (answer (record r { protocol = handled.1 }) peer frame.msg_id handled.0)

  unfoldable pub welcome_pong : Receiver → Instant → Option Node → Option Receiver
  unfolding schedule_welcome_if_new
  welcome_pong r now none = some r
  welcome_pong r now (some source) = do
    p ← schedule_welcome_if_new r.protocol now source
    some (record r { protocol = p })

  unfoldable pub handle_response : Receiver → Instant → Peer → Frame → Option Receiver
  unfolding on_response welcome_pong
  handle_response r now peer frame =
      let d = on_response r.pending peer frame.msg_id frame.message in
      do
        q ← welcome_pong (record r { pending = d.0 }) now (source_of_delivery d.1 peer)
        some (record q { delivered = q.delivered ++ d.1 ∷ [] })

  -- A request that carries a record, once it is in progress and its lookup, if any, has a place.
  unfoldable pub handle_started :
      Bool → Receiver → Instant → Peer → RequestKey → Frame → Option Receiver
  unfolding handle_and_answer answer
  handle_started true r now peer key frame =
      let r' = answer r peer frame.msg_id (some RpcMessage.received) in
      some (record r' { waiting = record { key = key; frame = frame } ∷ r'.waiting })
  handle_started false r now peer key frame = do
    r' ←
        handle_and_answer (answer r peer frame.msg_id (some RpcMessage.received)) now unknown peer
          frame
    some (stop r' key)

  unfoldable pub handle_record : Receiver → Instant → Peer → RequestKey → Frame → Option Receiver
  unfolding handle_started take_slot
  handle_record r now peer key frame =
      if any (λ k. is_request_key k key) r.requests_in_progress
      then some (answer r peer frame.msg_id (some RpcMessage.received))
      else if needs_lookup frame.message
          (store_needs_lookup m (store_handler c) r.protocol.storage now.nanos)
      then (let slot = take_slot r.store_lookups in
          if slot.1
          then handle_started true (record (start r key) { store_lookups = slot.0 }) now peer key
              frame
          else some (record r { store_lookups = slot.0 }))
      else handle_started false (start r key) now peer key frame

  unfoldable pub handle_frame : Receiver → Instant → Peer → Bytes → Option Frame → Option Receiver
  unfolding handle_response handle_and_answer handle_record
  handle_frame r now peer payload none = some r
  handle_frame r now peer payload (some frame) =
      if not frame.is_request
      then handle_response r now peer frame
      else if is_none (carried_record frame.message)
      then handle_and_answer r now unknown peer frame
      else handle_record r now peer (peer, c.record_hash payload) frame

  unfoldable pub handle_payload : Receiver → Instant → Peer → Option Bytes → Option Receiver
  unfolding handle_frame
  handle_payload r now peer none = some r
  handle_payload r now peer (some payload) = handle_frame r now peer payload (decode payload)

  unfoldable pub handle_fragment :
      Receiver → Instant → Peer → Option (FragHeader × Bytes) → Option Receiver
  unfolding handle_payload gc_reassembly accept_fragment
  handle_fragment r now peer none = some r
  handle_fragment r now peer (some (header, chunk)) =
      if header.total == 1
      then handle_payload r now peer (some chunk)
      else if ltb max_message_size (header.total * frag_chunk_size)
      then some r
      else (let r' = gc_reassembly r now.nanos in
          let accepted = accept_fragment dec now.nanos r'.reassembly peer header chunk in
          handle_payload (record r' { reassembly = accepted.0 }) now peer accepted.1)

  unfoldable pub handle_datagram : Receiver → Instant → Peer → Bytes → Option Receiver
  unfolding handle_fragment parse_fragment
  handle_datagram r now peer bytes = handle_fragment r now peer (parse_fragment bytes)

  -- What the end of the task of a STORE that waits gives back: the place, the mark of the request and
  -- the task itself.
  unfoldable pub leave_waiting : Receiver → Waiting → Receiver
  unfolding drop_slot
  leave_waiting r w = record (stop r w.key) {
    store_lookups = drop_slot r.store_lookups;
    waiting = remove_first (λ v. is_request_key v.key w.key) r.waiting;
  }

  -- That task, when its lookup is over.
  unfoldable pub end_store : Receiver → Instant → NetworkCopy → Waiting → Option Receiver
  unfolding handle_and_answer leave_waiting
  end_store r now copy w = do
    r' ← handle_and_answer r now copy w.key.0 w.frame
    some (leave_waiting r' w)
