-- ===== src/Lib.antt =====
-- AuthKademlia-RS: a Kademlia DHT node whose records are signed by their owners.
--
-- A node keeps records in a bounded store with a lifetime (src/storage.rs), knows peers through a
-- routing table of buckets (src/routing.rs), sends messages (src/protocol/messages.rs) in datagrams
-- that it cuts and joins (src/fragmentation.rs), and finds peers and values by iterative lookups
-- (src/crawling.rs) over a heap of the closest peers (src/node.rs). A publication writes a record to
-- the responsible replicas and reports what they answered (src/network/publish.rs).
--
-- Prelude: lists measured by native numbers, byte strings, sorting by a key, lists without duplicate
--   keys, and `KeyMap`, the interface to the map of the crate dashmap with what its documentation
--   says of it; `KeyMap.Assoc` is a map that meets it.
-- Storage (src/storage.rs): `ForgetfulStorage`. `set`, `insert_if_absent`, `get`, `prune_expired`,
--   `iter_older_than` and `iter_all` are the methods of those names; the clock, in nanoseconds, is an
--   argument; the byte counter keeps its wrap-around. `Budget`, `Reads` and `FirstWriter` hold the
--   theorems. Calls are atomic, one after the other.
-- Fragmentation (src/fragmentation.rs): `encode_fragments`, `parse_fragment`, `ReassemblyEntry` and
--   `accept_fragment`; `sweep` is `gc_reassembly` of src/protocol/transport.rs. `swept_messages` runs a
--   sequence of arrivals as `handle_datagram` does, a sweep before each, and `messages` without the
--   sweeps. `Wire`, `Entry`, `Reassembly`, `Delivery`, `Completion`, `Sweeping` and `Limits` hold the
--   theorems. The chunks of a payload are cut on fuel, the payload's length.
-- Node (src/node.rs): `Node` and its distance; `Node.Heap` is `NodeHeap`, with `push` as its loop
--   `push_each` and the sort and truncation `trim`.
-- Routing (src/routing.rs): `Routing.Bucket` is `KBucket`, `Routing.Table` is `RoutingTable` up to
--   `insert`, `Routing.Table.Health` the failures and the queries, `Routing.Table.Neighbors` the
--   selection of contacts, and `Routing.Table.Tiers` what it selects. An index out of bounds is
--   `none`. `insert` runs on fuel; each split halves the range of the peer's bucket, so 161 rounds are
--   enough for 160-bit ids. The random part of a delay is an argument.
-- Messages (src/protocol/messages.rs): the messages, the record each carries, and
--   `Messages.Expected`, the answer each request expects.
-- Publish (src/network/publish.rs): the report of a publication, its outcome, and the replicas
--   responsible for a key.
-- Crawling (src/crawling.rs): the state of a lookup, its rounds, the vote on a value, `find_quorum`,
--   and the lookup of nodes, on fuel. What the network answers is the interface `SpiderProtocol`.
--   `Crawling.Search` is `search` with its deadline, and `Silence` holds what its ends say.
-- StoreCheck (src/protocol/store_check.rs): the STORE handler `rpc_store` over Storage, and the
--   places for lookups that wait. What the lookup of an empty replica ends with is an argument of it,
--   as are the checks of a record, and `StoreCheck.Lookup.network_copy` is that lookup; the welcome of
--   the sender is in `Protocol.Handlers.handle_store`.
-- Crypto (src/crypto): the names of the algorithms, the choice of a verifier, and the verifiers with
--   the lengths that they check, over the interface `Primitives` to the cryptographic libraries.
-- Auth (src/auth_handler.rs, src/signature_cache.rs): the layout of a record (`record_parts`, `Layout`),
--   the binding of a record to a key (`Binding`), `DIDSignatureVerifierHandler` as `did_handler`, key
--   rotations (`Rotation`), and `verify_record` with its cache (`Cache`, `Transparency`). JSON, base64,
--   UUID and hashes are the interface `Documents`; the cache of the crate moka is `CacheLibrary`, of
--   which only the following is assumed: a new cache is empty, and a cache returns no result but one that was
--   inserted under that key. The issuer key file is read again at each call, so its content is an
--   argument of each call in `Transparency`. The handlers of Protocol, StoreCheck and Server verify
--   without the cache.
-- Retransmit (src/retransmit.rs): `RoundTrips`; `record` is `record_sample`.
-- Protocol (src/protocol/mod.rs): the state that the handlers share. `Contacts` and `Welcome` are
--   src/protocol/contacts.rs and src/protocol/welcome.rs, `Handlers` is src/protocol/handlers.rs with
--   `dispatch_request`. A handler runs as one step and returns the state that it leaves; the tasks that
--   it starts are a list.
-- Transport (src/protocol/transport.rs): `Call` is the loop of `call`, its events in any order;
--   `Pending` the table of the pending requests; `Receive` is `handle_datagram` from the fragment to
--   the answer. A STORE that waits for a lookup is in `waiting` and ends
--   by `end_store`; `Ends` is about any sequence of datagrams and such ends. `Call` takes
--   the permits of receipts as events; which receipts give a permit is for the sequence to say.
-- Client (src/protocol/client.rs): the requests `call_*` and what they make of the answers, over the
--   interface `Network`; `request_alive` and `request_find` are the steps that they share.
-- Server (src/network/mod.rs, src/network/read.rs, src/network/update.rs): `get`, and `update` in
--   `Server.Update`. The server and its protocol share the storage, which is a field of the latter;
--   the requests of an update run one after the other. A lookup runs on fuel, as in Crawling.
--
-- Not modelled: sockets, tasks, timers and locks; logging and formatting; the libraries for hashes,
-- signatures and serialization; the value lookup `find`; the publication beyond its report and its
-- replicas; the start, the stop and the upkeep of a server; signing and the files of keys; the Python
-- bindings, the counters, and the tests.
pub mod Prelude
pub mod Storage
pub mod Fragmentation
pub mod Node
pub mod Routing
pub mod Messages
pub mod Publish
pub mod Crawling
pub mod StoreCheck
pub mod Crypto
pub mod Auth
pub mod Retransmit
pub mod Protocol
pub mod Transport
pub mod Client
pub mod Server
