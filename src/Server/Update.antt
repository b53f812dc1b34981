-- ===== src/Server/Update.antt =====
-- src/network/update.rs: the updates of a node's user. The outer `none` is an index out of bounds or
-- the end of the fuel.
use auth_kademlia_rs.Prelude.{
  ℕ, ◌+◌, ◌-◌, ◌/◌, min, Bool, true, false, not, ◌&&◌, ◌||◌, Option, none, some, List, [], ◌∷◌, leb,
  ◌==◌, if◌then◌else◌, Bytes, bytes_eq, length, take, retain,
}
use auth_kademlia_rs.Prelude.Options.{◌>>=◌}
use auth_kademlia_rs.Prelude.KeyMap.{KeyMap}
use auth_kademlia_rs.Node.{Node, from_id}
use auth_kademlia_rs.Storage.{Slot}
use auth_kademlia_rs.Storage as Storage
use auth_kademlia_rs.Routing.Table.Neighbors.{find_neighbors}
use auth_kademlia_rs.Publish.{select_responsible_nodes}
use auth_kademlia_rs.Crawling.{SpiderProtocol, new, find_lookup_nodes}
use auth_kademlia_rs.Auth.{verify_rotation, verify_issuer_signed}
use auth_kademlia_rs.Protocol.{Instant, KademliaProtocol}
use auth_kademlia_rs.Protocol.Contacts.{with_router}
use auth_kademlia_rs.Protocol.Handlers.{Result, is_capacity_exceeded, is_kept, is_none}
use auth_kademlia_rs.Client.{
  Network, call_status_list_update_rpc, call_update_rpc_answer, call_store_rpc,
}
use auth_kademlia_rs.Server.{Server, is_status_list, get}

abbrev pub unwrap_or_default : Option Bytes → Bytes
unwrap_or_default none = []
unwrap_or_default (some v) = v

module _ {m : KeyMap Bytes Slot} (s : Server m) where
  -- What a replica answers to an update; one that refuses is sent the record as a STORE.
  unfoldable pub store_refused :
      Network → KademliaProtocol m → Instant → Node → Bytes → Bytes → Option Bool → Result m Bool
  unfolding call_store_rpc
  store_refused net p now n dkey value none = some (false, p)
  store_refused net p now n dkey value (some true) = some (true, p)
  store_refused net p now n dkey value (some false) = do
    r ← call_store_rpc net p now n dkey value
    some (is_kept r.0, r.1)

  unfoldable pub update_replica :
      Network
      → KademliaProtocol m
      → Instant
      → Bytes
      → Bytes
      → Option Bytes
      → Node
      → Bool
      → Result m Bool
  unfolding call_status_list_update_rpc call_update_rpc_answer store_refused
  update_replica net p now dkey value auth_signature n true =
      call_status_list_update_rpc net p now n dkey value
  update_replica net p now dkey value auth_signature n false = do
    r ← call_update_rpc_answer net p now n dkey value (unwrap_or_default auth_signature)
    store_refused net r.1 now n dkey value r.0

  -- The answers of the replicas, in their order; the requests run one after the other.
  unfoldable pub update_replicas :
      Network
      → Instant
      → Bytes
      → Bytes
      → Option Bytes
      → Bool
      → List Node
      → KademliaProtocol m
      → Result m (List Bool)
  unfolding update_replica
  update_replicas net now dkey value auth_signature is_status [] p = some ([], p)
  update_replicas net now dkey value auth_signature is_status (n ∷ l) p = do
    r ← update_replica net p now dkey value auth_signature n is_status
    rest ← update_replicas net now dkey value auth_signature is_status l r.1
    some (r.0 ∷ rest.0, rest.1)

  -- The replicas whose answers decide, beside the node itself.
  unfoldable pub primary_remote_count : Bool → List Bool → ℕ
  primary_remote_count store_local results =
      min (s.alpha - (if store_local then 1 else 0)) (length results)

  unfoldable pub group_size : Bool → List Bool → ℕ
  unfolding primary_remote_count
  group_size store_local results =
      (if store_local then 1 else 0) + primary_remote_count store_local results

  unfoldable pub acknowledgements : Bool → List Bool → ℕ
  unfolding primary_remote_count
  acknowledgements store_local results =
      (if store_local then 1 else 0)
      + length (retain (λ b. b) (take (primary_remote_count store_local results) results))

  unfoldable pub quorum_met : Bool → List Bool → Bool
  unfolding group_size acknowledgements
  quorum_met store_local results =
      let size = group_size store_local results in
      not (size == 0) && leb (size / 2 + 1) (acknowledgements store_local results)

  -- The record's own copy here, once the quorum has met.
  unfoldable pub write_local :
      Instant → Bytes → Bytes → Bool → Bool → KademliaProtocol m → Bool × KademliaProtocol m
  write_local now dkey value store_local false p = (false, p)
  write_local now dkey value false true p = (true, p)
  write_local now dkey value true true p =
      let w = Storage.set m p.storage now.nanos dkey value in
      (not (is_capacity_exceeded w.1), record p { storage = w.0 })

  unfoldable pub update_responsible :
      Network
      → Instant
      → Bytes
      → Bytes
      → Option Bytes
      → Bool
      → Bool × List Node
      → KademliaProtocol m
      → Result m Bool
  unfolding update_replicas quorum_met write_local
  update_responsible net now dkey value auth_signature is_status (store_local, l) p = do
    r ← update_replicas net now dkey value auth_signature is_status l p
    some (write_local now dkey value store_local (quorum_met store_local r.0) r.1)

  unfoldable pub update_found :
      Network
      → SpiderProtocol
      → ℕ
      → Instant
      → Bytes
      → Bytes
      → Option Bytes
      → Bool
      → List Node
      → KademliaProtocol m
      → Result m Bool
  unfolding find_lookup_nodes select_responsible_nodes update_responsible from_id new
  update_found net spider fuel now dkey value auth_signature is_status [] p = some (false, p)
  update_found net spider fuel now dkey value auth_signature is_status (n ∷ l) p = do
    let node = from_id dkey
    nodes ← find_lookup_nodes fuel spider (new node (n ∷ l) s.ksize s.alpha)
    update_responsible net now dkey value auth_signature is_status
        (select_responsible_nodes p.source_node node nodes.found s.ksize) p

  unfoldable pub update_digest :
      Network
      → SpiderProtocol
      → ℕ
      → Instant
      → Bytes
      → Bytes
      → Option Bytes
      → KademliaProtocol m
      → Bool
      → Result m Bool
  unfolding find_neighbors update_found from_id
  update_digest net spider fuel now key value auth_signature p false = some (false, p)
  update_digest net spider fuel now key value auth_signature p true = do
    r ← find_neighbors now.secs p.router (from_id (s.digest key)) none
    update_found net spider fuel now (s.digest key) value auth_signature (is_status_list s key) r.0
        (with_router p r.1)

  -- Whether the update is authorised: it is the copy that is held, is signed by the issuer, or is
  -- a rotation of the key of the copy.
  unfoldable pub is_authorised : Bytes → Bytes → Option Bytes → Bytes → Bool
  unfolding verify_rotation verify_issuer_signed
  is_authorised key value auth_signature old_value =
      not (is_status_list s key) && bytes_eq old_value value
      || (if is_status_list s key && is_none auth_signature
          then verify_issuer_signed s.settings.signature_handler value
          else verify_rotation s.settings.signature_handler (s.digest key) value old_value
              (unwrap_or_default auth_signature))

  unfoldable pub update_old :
      Network
      → SpiderProtocol
      → ℕ
      → Instant
      → Bytes
      → Bytes
      → Option Bytes
      → Option Bytes
      → KademliaProtocol m
      → Result m (Option Bool)
  unfolding is_authorised update_digest
  update_old net spider fuel now key value auth_signature none p = some (none, p)
  update_old net spider fuel now key value auth_signature (some old_value) p =
      if is_authorised key value auth_signature old_value
      then (do
        r ← update_digest net spider fuel now key value auth_signature p s.listening
        some (some r.0, r.1))
      else some (none, p)

  unfoldable pub update :
      Network → SpiderProtocol → ℕ → Instant → Bytes → Bytes → Option Bytes → Result m (Option Bool)
  unfolding get update_old
  update net spider fuel now key value auth_signature = do
    old ← get s spider fuel now key
    update_old net spider fuel now key value auth_signature old.0 old.1
