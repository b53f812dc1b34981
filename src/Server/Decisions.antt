-- ===== src/Server/Decisions.antt =====
-- src/network/update.rs: what an update that returns has done, from the read of the old record on.
use auth_kademlia_rs.Prelude.{ℕ, ◌≡◌, ◌≢◌, ◌⊎◌, true, Option, none, some, List, Bytes}
use auth_kademlia_rs.Prelude.KeyMap.{KeyMap}
use auth_kademlia_rs.Node.{Node, from_id}
use auth_kademlia_rs.Storage.{Slot, Store}
use auth_kademlia_rs.Storage as Storage
use auth_kademlia_rs.Routing.Table.Neighbors.{find_neighbors}
use auth_kademlia_rs.Publish.{select_responsible_nodes}
use auth_kademlia_rs.Crawling.{SpiderProtocol, LookupNodes, new, find_lookup_nodes}
use auth_kademlia_rs.Protocol.{Instant, KademliaProtocol}
use auth_kademlia_rs.Protocol.Contacts.{with_router}
use auth_kademlia_rs.Client.{Network}
use auth_kademlia_rs.Server.{Server, is_status_list, verify_value, get}
use auth_kademlia_rs.Server.Update.{unwrap_or_default}
use auth_kademlia_rs.Server.Quorum.{IsQuorum}
use auth_kademlia_rs.Auth.{verify_rotation, verify_issuer_signed}
use auth_kademlia_rs.Routing.Table.{RoutingTable}

module _ {m : KeyMap Bytes Slot} (s : Server m) (net : Network) where
  -- The replicas were those of a lookup from the contacts that the routing table gave, and a quorum
  -- of them took the record.
  abbrev pub IsPublished :
      SpiderProtocol
      → ℕ
      → Instant
      → Bytes
      → Bytes
      → Option Bytes
      → KademliaProtocol m
      → Store m
      → Type 0
  IsPublished spider fuel now key value sig p after =
      let target = from_id (s.digest key) in
      (nearest : List Node) × (table : RoutingTable) × (nodes : LookupNodes) × (find_neighbors
          now.secs p.router target none
        ≡ some (nearest, table))
      × (find_lookup_nodes fuel spider (new target nearest s.ksize s.alpha) ≡ some nodes)
      × IsQuorum s net now (s.digest key) value sig (is_status_list s key)
          (select_responsible_nodes p.source_node target nodes.found s.ksize) (with_router p table)
          after

  -- The new record is the old one, or the issuer signed it and it is for the Status List, or the
  -- signature rotates the key of the old one.
  abbrev pub IsAuthorised : Bytes → Bytes → Option Bytes → Bytes → Type 0
  IsAuthorised key value sig old =
      ((key ≢ s.status_list_name) × (old ≡ value))
      ⊎ (((key ≡ s.status_list_name)
            × (sig ≡ none)
            × (verify_issuer_signed s.settings.signature_handler value ≡ true))
          ⊎ (verify_rotation s.settings.signature_handler (s.digest key) value old
                (unwrap_or_default sig)
              ≡ true))

  -- The read gave a valid record, the update was authorised against it, and its replicas took it.
  abbrev pub IsUpdated :
      SpiderProtocol → ℕ → Instant → Bytes → Bytes → Option Bytes → Store m → Type 0
  IsUpdated spider fuel now key value sig after =
      (old : Bytes) × (p : KademliaProtocol m) × (get s spider fuel now key ≡ some (some old, p))
      × (p.storage ≡ s.protocol.storage)
      × (verify_value s key old ≡ true)
      × IsAuthorised key value sig old
      × IsPublished spider fuel now key value sig p after
