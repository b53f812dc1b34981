-- ===== src/StoreCheck/Lookup.antt =====
-- src/protocol/store_check.rs: `network_copy`, the lookup by which an empty replica asks for the hash
-- of the record that others hold. The network is the interface of Crawling.Search; the outer `none`
-- is an index out of bounds in the routing table, or the end of the fuel.
use auth_kademlia_rs.Prelude.{
  ℕ, Bool, false, not, Option, none, some, List, [], ◌∷◌, ltb, if◌then◌else◌, Bytes, length, retain,
}
use mathlib.Core.Option.{map as option_map}
use auth_kademlia_rs.Prelude.Options.{◌>>=◌}
use auth_kademlia_rs.Node.{Node, from_id, distance_to}
use auth_kademlia_rs.Routing.Table.{RoutingTable, has_failures}
use auth_kademlia_rs.Routing.Table.Neighbors.{find_neighbors}
use auth_kademlia_rs.Crawling.{SpiderCrawl, new}
use auth_kademlia_rs.Crawling.Search.{SearchNetwork, asking_everyone, search}
use auth_kademlia_rs.StoreCheck.{NetworkCopy, unknown, copy_of, accept_other}

-- The contacts to ask, and whether fewer than `ksize` neighbours are closer to the key than the node.
unfoldable pub nearest_to_ask : RoutingTable → List Node → Node → Node → ℕ → List Node × Bool
unfolding distance_to
nearest_to_ask t neighbors source target ksize =
    let own_distance = distance_to source target in
    let closer = length (retain (λ n. ltb (distance_to n target) own_distance) neighbors) in
    (retain (λ n. not (has_failures t n.id)) neighbors, ltb closer ksize)

unfoldable pub crawl_for : List Node × Bool → Node → ℕ → ℕ → SpiderCrawl
unfolding new asking_everyone
crawl_for (nearest, among_closest) target ksize alpha =
    let crawl = new target nearest ksize alpha in
    if among_closest then asking_everyone crawl else crawl

unfoldable pub ask_network :
    SearchNetwork → ℕ → Bytes → List Node × Bool → Node → ℕ → ℕ → Option NetworkCopy
unfolding search crawl_for copy_of accept_other
ask_network net fuel own ([], among_closest) target ksize alpha = some unknown
ask_network net fuel own (n ∷ l, among_closest) target ksize alpha =
    option_map copy_of (
      search (accept_other own) net fuel (crawl_for (n ∷ l, among_closest) target ksize alpha)
        false)

-- The routing table is read once, and keeps the time of the read.
unfoldable pub network_copy :
    (Bytes → Bytes)
    → SearchNetwork
    → ℕ
    → ℕ
    → RoutingTable
    → Node
    → ℕ
    → ℕ
    → Bytes
    → Bytes
    → Option (NetworkCopy × RoutingTable)
unfolding find_neighbors nearest_to_ask ask_network from_id
network_copy record_hash net fuel now_secs router source ksize alpha key value = do
  let target = from_id key
  r ← find_neighbors now_secs router target none
  c ←
      ask_network net fuel (record_hash value) (nearest_to_ask r.1 r.0 source target ksize) target
        ksize alpha
  some (c, r.1)
