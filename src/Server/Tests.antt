-- ===== src/Server/Tests.antt =====
-- src/network/read.rs and src/network/update.rs: the theorems at a node that knows one peer.
use auth_kademlia_rs.Prelude.{
  ℕ, ◌≡◌, refl, Bool, true, Option, none, some, List, [], ◌∷◌, Bytes, bytes_discrete, replicate,
}
use mathlib.Core.List.{lookup}
use auth_kademlia_rs.Prelude.KeyMap.{KeyMap}
use auth_kademlia_rs.Prelude.KeyMap.Assoc.{assoc}
use auth_kademlia_rs.Prelude.Results.{ok}
use auth_kademlia_rs.Node.{Node, new}
use auth_kademlia_rs.Node.Heap as Heap
use auth_kademlia_rs.Storage.{Slot, pos, with_max_storage_bytes}
use auth_kademlia_rs.Storage as Storage
use auth_kademlia_rs.Routing.Bucket as Bucket
use auth_kademlia_rs.Routing.Table as Table
use auth_kademlia_rs.Messages.{RpcMessage}
use auth_kademlia_rs.Crawling.{RawResponse, FindPayload, SpiderProtocol}
use auth_kademlia_rs.Crawling as Crawling
use auth_kademlia_rs.Auth.{SignatureVerifierHandler, is_bound_to_key}
use auth_kademlia_rs.Auth.Cache.{domain_of, check_signature}
use auth_kademlia_rs.Protocol.{Instant, KademliaProtocol}
use auth_kademlia_rs.Protocol.Handlers.{Result, verify_for_key}
use auth_kademlia_rs.Client.{Network}
use auth_kademlia_rs.Server.{Server, keep_if, verify_value, get_from, get}
use auth_kademlia_rs.Server.Update.{update}
use auth_kademlia_rs.Server.Reads.{get-valid}

abbrev table : KeyMap Bytes Slot
table = assoc bytes_discrete

abbrev id_of_byte : ℕ → Bytes
id_of_byte n = replicate 20 n

abbrev local_node : Node
local_node = new (id_of_byte 0) none none

abbrev guest : Node
guest = new (id_of_byte 3) (some (49 ∷ [])) (some 4000)

-- Every record is authentic and bound to every key, and every update is authorised.
abbrev open_handler : SignatureVerifierHandler
open_handler = record {
  handle_key_binding_verification = λ key value. ok true;
  handle_signature_verification = λ value. ok true;
  handle_update_verification = λ new old sig. ok true;
  handle_issuer_node_signature_verification = λ value. ok true;
}

abbrev a_server : Server table
a_server = record {
  ksize = 2;
  alpha = 2;
  settings = record {
    signature_handler = open_handler;
    status_list_key = id_of_byte 9;
    record_hash = λ l. l;
  };
  digest = λ key. key;
  status_list_name = id_of_byte 9;
  listening = true;
  protocol = record {
    source_node = local_node;
    router = record (Table.new 0 local_node 2) {
      buckets = (Bucket.add_node (Bucket.new 0 0 Table.last_id 2) guest).1 ∷ [];
    };
    storage =
        (Storage.set table (with_max_storage_bytes table (pos 100) 50) 0 (id_of_byte 5) (1 ∷ [])).0;
    welcome_in_flight = [];
    oldest_pings_in_flight = [];
    tasks = [];
  };
}

abbrev at_seven : Instant
at_seven = record { secs = 7; millis = 7000; nanos = 7_000_000_000 }

-- Who is asked in a lookup knows nobody, and replicas take every update.
abbrev all_empty : List Node → List (Bytes × RawResponse)
all_empty [] = []
all_empty (n ∷ l) = (n.id, (true, FindPayload.empty)) ∷ all_empty l

abbrev lookups : SpiderProtocol
lookups = record { answers = λ r l. all_empty l; failing_among = λ l. [] }

abbrev willing : Network
willing = record {
  SocketAddr = Bytes × ℕ;
  parse = λ a. some a;
  call = λ a request. some (RpcMessage.update_result true);
  spread = λ n. n;
}

abbrev state_of : {A : Type 0} → Result table A → KademliaProtocol table
state_of none = a_server.protocol
state_of (some r) = r.1

abbrev a_read : Result table (Option Bytes)
a_read = get a_server lookups 3 at_seven (id_of_byte 5)

abbrev an_update : Result table (Option Bool)
an_update = update a_server willing lookups 3 at_seven (id_of_byte 5) (2 ∷ []) (some (8 ∷ []))

read_run : a_read ≡ some (some (1 ∷ []), state_of a_read)
unfolding get get_from keep_if verify_value verify_for_key is_bound_to_key domain_of check_signature
    bytes_discrete lookup Storage.get Storage.set with_max_storage_bytes
read_run = refl

get-valid_example : verify_value a_server (id_of_byte 5) (1 ∷ []) ≡ true
get-valid_example =
    get-valid a_server lookups 3 at_seven (id_of_byte 5) (1 ∷ []) (state_of a_read) read_run
