-- ===== src/Transport/Tests.antt =====
-- src/protocol/transport.rs: the theorems at small inputs.
use auth_kademlia_rs.Prelude.{
  ℕ, zero, suc, ◌+◌, ◌*◌, ◌<◌, ◌≤◌, ◌≡◌, refl, subst, true, false, Option, none, some, List, [],
  ◌∷◌, ◌++◌, arith, ℕ_discrete, ◌==◌, if◌then◌else◌, Bytes, bytes_discrete, replicate, length,
}
use mathlib.Core.HLevel.{×_discrete}
use mathlib.Core.Option.{some-injective}
use auth_kademlia_rs.Protocol.Answers.{HasIds}
use auth_kademlia_rs.Prelude.KeyMap.{KeyMap}
use auth_kademlia_rs.Prelude.KeyMap.Assoc.{assoc}
use auth_kademlia_rs.Prelude.Results.{ok}
use auth_kademlia_rs.Node.{Node, new}
use auth_kademlia_rs.Storage.{Slot, pos, with_max_storage_bytes}
use auth_kademlia_rs.Routing.Table as Table
use auth_kademlia_rs.Routing.Table.Termination.{new-IsTable}
use auth_kademlia_rs.Messages.{RpcMessage}
use auth_kademlia_rs.Messages.Expected.{ExpectedResponse}
use auth_kademlia_rs.Auth.{SignatureVerifierHandler}
use auth_kademlia_rs.Retransmit.{RoundTrip, RoundTrips, with_capacity}
use auth_kademlia_rs.Protocol.{Instant, KademliaProtocol, Settings}
use auth_kademlia_rs.Protocol.Upkeep.{replications, IsProtocol}
use auth_kademlia_rs.Transport.{Peer, Frame}
use auth_kademlia_rs.Transport.Call.{
  Request, Event, notified, timer, Outcome, panicked, start_call, run_call,
}
use auth_kademlia_rs.Transport.Resends.{run_call_bounds}
use auth_kademlia_rs.Transport.Receipts.{IsBurst, receipts_at, receipts_panic}
use auth_kademlia_rs.Transport.Pending.{PendingMap}
use auth_kademlia_rs.Transport.Matching.{Arrival, replies, first_matching, replies-first_matching}
use auth_kademlia_rs.Transport.Receive.{Waiting, Receiver, handle_datagram, end_store}
use auth_kademlia_rs.StoreCheck.{NetworkCopy, none_or_same}
use auth_kademlia_rs.Transport.Ends.{IsReached, here, datagram, ended, IsReached-IsReceiver}
use auth_kademlia_rs.Transport.Handling.{IsReceiver}
use auth_kademlia_rs.Transport.Reception.{IsTyped}

abbrev trips_table : KeyMap Bytes RoundTrip
trips_table = assoc bytes_discrete

abbrev no_trips : RoundTrips trips_table
no_trips = with_capacity trips_table 4

abbrev a_request : Request
a_request = record { peer = 1 ∷ []; first_sent = 0; answer_measures = true }

abbrev two_events : List (ℕ × Event)
two_events = (500_000_000, timer true) ∷ (600_000_000, notified) ∷ []

run_call_bounds_example :
    (length
        (run_call trips_table a_request
          (start_call trips_table a_request no_trips, none)
          two_events).0.copies
      ≤ 3)
    × ((outcome : Outcome) × ((run_call trips_table a_request
            (start_call trips_table a_request no_trips, none)
            (two_events ++ (3_000_000_000, timer true) ∷ [])).1
          ≡ some outcome))
run_call_bounds_example =
    run_call_bounds trips_table a_request no_trips two_events 3_000_000_000 true (omega arith)

abbrev a_store_request : Request
a_store_request = record { peer = 1 ∷ []; first_sent = 0; answer_measures = false }

-- As many instants as asked for, one every 30 ms.
unfoldable every_30_ms : ℕ → ℕ → List ℕ
every_30_ms zero start = []
every_30_ms (suc n) start = (start + 30_000_000) ∷ every_30_ms n (start + 30_000_000)

every_30_ms-IsBurst :
    (n start end : ℕ) → start + n * 30_000_000 < end → IsBurst end start (every_30_ms n start)
unfolding every_30_ms
every_30_ms-IsBurst zero start end h = tt
every_30_ms-IsBurst (suc n) start end h = (
  omega arith,
  omega (arith, h),
  every_30_ms-IsBurst n (start + 30_000_000) end (omega (arith, h)),
)

length-every_30_ms : (n start : ℕ) → length (every_30_ms n start) ≡ n
unfolding every_30_ms
length-every_30_ms zero start = refl
length-every_30_ms (suc n) start = omega (arith, length-every_30_ms n (start + 30_000_000))

receipts_panic_example :
    (run_call trips_table a_store_request
      (start_call trips_table a_store_request no_trips, none)
      (receipts_at (every_30_ms 70 0))).1
    ≡ some panicked
receipts_panic_example =
    receipts_panic trips_table a_store_request no_trips (every_30_ms 70 0) refl
      (every_30_ms-IsBurst 70 0 2_500_000_000 (omega arith)) (length-every_30_ms 70 0)

abbrev asked : Peer
asked = (7 ∷ [], 4000)

abbrev one_pending : PendingMap
one_pending q =
    if q == 5 then some (record { peer = asked; expected = ExpectedResponse.pong }) else none

-- Another peer answers first.
abbrev two_pongs : List Arrival
two_pongs =
    ((8 ∷ [], 4000), 5, RpcMessage.pong (1 ∷ [])) ∷ (asked, 5, RpcMessage.pong (2 ∷ [])) ∷ []

replies-first_matching_example :
    replies 5 one_pending two_pongs ≡ first_matching 5 (one_pending 5) two_pongs
replies-first_matching_example = replies-first_matching 5 one_pending two_pongs

abbrev slots_table : KeyMap Bytes Slot
slots_table = assoc bytes_discrete

abbrev id_of_byte : ℕ → Bytes
id_of_byte n = replicate 20 n

abbrev lenient_handler : SignatureVerifierHandler
lenient_handler = record {
  handle_key_binding_verification = λ key value. ok true;
  handle_signature_verification = λ value. ok true;
  handle_update_verification = λ new old sig. ok true;
  handle_issuer_node_signature_verification = λ value. ok true;
}

abbrev node_settings : Settings
node_settings = record {
  signature_handler = lenient_handler;
  status_list_key = id_of_byte 9;
  record_hash = λ l. l;
}

-- Every payload is a Ping of the node of threes.
abbrev ping_frame : Frame
ping_frame = record { msg_id = 1; is_request = true; message = RpcMessage.ping (id_of_byte 3) }

abbrev decode_ping : Bytes → Option Frame
decode_ping payload = some ping_frame

abbrev local_node : Node
local_node = new (id_of_byte 0) none none

abbrev idle : KademliaProtocol slots_table
idle = record {
  source_node = local_node;
  router = Table.new 0 local_node 2;
  storage = with_max_storage_bytes slots_table (pos 100) 50;
  welcome_in_flight = [];
  oldest_pings_in_flight = [];
  tasks = [];
}

idle-IsProtocol : IsProtocol idle
unfolding replications
idle-IsProtocol = record {
  table = new-IsTable 0 2 local_node (omega arith);
  queue = omega arith;
  once = tt;
  waiting = refl;
}

peer_discrete : Discrete Peer
peer_discrete = ×_discrete bytes_discrete ℕ_discrete

abbrev listening : Receiver slots_table peer_discrete decode_ping node_settings
listening = record {
  protocol = idle;
  pending = λ q. none;
  reassembly = [];
  last_reassembly_gc = 0;
  requests_in_progress = [];
  store_lookups = 0;
  waiting = [];
  sent = [];
  delivered = [];
}

listening-IsReceiver : IsReceiver peer_discrete decode_ping node_settings listening
listening-IsReceiver = record {
  protocol = idle-IsProtocol;
  slots = refl;
  places = omega arith;
  once = tt;
  keys = refl;
  ids = tt;
}

ping-IsTyped : IsTyped decode_ping
ping-IsTyped payload f e =
    subst (λ g. HasIds g.message) (some-injective ping_frame f e) (ground arith)

-- "KADF", fragment 1 of message 0, and one byte.
abbrev ping_datagram : Bytes
ping_datagram = 75 ∷ 65 ∷ 68 ∷ 70 ∷ 0 ∷ 0 ∷ 0 ∷ 0 ∷ 0 ∷ 0 ∷ 0 ∷ 1 ∷ 42 ∷ []

abbrev noon : Instant
noon = record { secs = 7; millis = 7000; nanos = 7_000_000_000 }

-- A STORE that waits for its lookup, and nothing else in progress.
abbrev a_store : Waiting
a_store = record {
  key = (asked, 7 ∷ []);
  frame = record {
    msg_id = 2;
    is_request = true;
    message = RpcMessage.store (id_of_byte 3) (id_of_byte 5) (1 ∷ []);
  };
}

abbrev looking_up : Receiver slots_table peer_discrete decode_ping node_settings
looking_up = record listening {
  requests_in_progress = a_store.key ∷ [];
  store_lookups = 1;
  waiting = a_store ∷ [];
}

looking_up-IsReceiver : IsReceiver peer_discrete decode_ping node_settings looking_up
looking_up-IsReceiver = record {
  protocol = idle-IsProtocol;
  slots = refl;
  places = omega arith;
  once = (refl, tt);
  keys = refl;
  ids = (ground arith, tt);
}

-- The node when the lookup of the STORE is over, and after a datagram.
stored :
    (r : Receiver slots_table peer_discrete decode_ping node_settings) × (end_store slots_table
        peer_discrete decode_ping node_settings looking_up noon none_or_same a_store
      ≡ some r)
stored =
    (IsReached-IsReceiver peer_discrete decode_ping node_settings looking_up looking_up ping-IsTyped
        looking_up-IsReceiver here).2
      noon none_or_same a_store [] [] refl

stored-IsReached : IsReached peer_discrete decode_ping node_settings looking_up stored.0
stored-IsReached = ended here noon none_or_same a_store [] [] refl stored.1

pinged :
    (r : Receiver slots_table peer_discrete decode_ping node_settings) × (handle_datagram
        slots_table peer_discrete decode_ping node_settings stored.0 noon asked ping_datagram
      ≡ some r)
pinged =
    (IsReached-IsReceiver peer_discrete decode_ping node_settings looking_up stored.0 ping-IsTyped
        looking_up-IsReceiver stored-IsReached).1
      noon asked ping_datagram

IsReached-IsReceiver_example :
    IsReceiver peer_discrete decode_ping node_settings pinged.0
    × ((now : Instant) (peer : Peer) (bytes : Bytes)
        → (r' : Receiver slots_table peer_discrete decode_ping node_settings) × (handle_datagram
              slots_table peer_discrete decode_ping node_settings pinged.0 now peer bytes
            ≡ some r'))
    × ((now : Instant) (copy : NetworkCopy) (w : Waiting) (before after : List Waiting)
        → pinged.0.waiting ≡ before ++ w ∷ after
        → (r' : Receiver slots_table peer_discrete decode_ping node_settings) × (end_store
              slots_table peer_discrete decode_ping node_settings pinged.0 now copy w
            ≡ some r'))
IsReached-IsReceiver_example =
    IsReached-IsReceiver peer_discrete decode_ping node_settings looking_up pinged.0 ping-IsTyped
      looking_up-IsReceiver (datagram stored-IsReached noon asked ping_datagram pinged.1)
