-- ===== src/Routing/Tests.antt =====
-- src/routing.rs: runs of the table, and the theorems at these inputs.
use auth_kademlia_rs.Prelude.{
  ℕ, zero, suc, ◌+◌, ◌<◌, ◌≡◌, refl, Bool, Option, none, some, [], ◌∷◌, arith, AreBytes,
  bytes_discrete, replicate, All,
}
use auth_kademlia_rs.Prelude.Sort.{sort_by_key}
use auth_kademlia_rs.Node.{Node, from_id, distance_to, id_to_u256}
use auth_kademlia_rs.Node as Node
use auth_kademlia_rs.Routing.Bucket.{
  KBucket, new, add_node, remove_node, split, midpoint, covers, touch_last_updated,
}
use auth_kademlia_rs.Routing.Bucket.Laws.{IsPeer, IsIn, IsBucket, new-IsBucket, add_node-IsBucket}
use auth_kademlia_rs.Routing.Bucket.Replacements.{remove_node-IsBucket}
use auth_kademlia_rs.Routing.Bucket.Split.{IsHalf, split-IsBucket}
use auth_kademlia_rs.Routing.Table.{
  RoutingTable, last_id, add_contact, bucket_index_for, index_from, has_failures,
}
use auth_kademlia_rs.Routing.Table as Table
use auth_kademlia_rs.Routing.Table.Health.{primaries}
use auth_kademlia_rs.Routing.Table.Neighbors.{
  candidates, touch_target, select, closest, find_neighbors,
}
use auth_kademlia_rs.Routing.Table.Tiers.{IsTier, IsSelected, find_neighbors-IsClosest}
use auth_kademlia_rs.Routing.Bucket.Keeps.{HoldsEither, split-HoldsEither}
use auth_kademlia_rs.Routing.Table.Insert.{IsTable}
use auth_kademlia_rs.Routing.Table.Termination.{new-IsTable, add_contact-IsTable}

replicate-AreBytes : (n b : ℕ) → b < 256 → AreBytes (replicate n b)
replicate-AreBytes zero b h = tt
replicate-AreBytes (suc n) b h = (h, replicate-AreBytes n b h)

abbrev peer : ℕ → Node
peer n = from_id (replicate 20 n)

peer-IsPeer : (n : ℕ) → n < 256 → IsPeer (peer n)
unfolding from_id Node.new
peer-IsPeer n h = (refl, replicate-AreBytes 20 n h, refl)

abbrev whole : KBucket
whole = new 0 0 last_id 2

peer-IsIn : IsIn 0 last_id (peer 5)
unfolding from_id Node.new id_to_u256 Node.from_big_endian
peer-IsIn = (peer-IsPeer 5 (omega arith), omega arith, omega arith)

add_node-IsBucket_example : IsBucket 2 (add_node whole (peer 5)).1
unfolding new
add_node-IsBucket_example =
    add_node-IsBucket 2 whole (peer 5) (new-IsBucket 0 0 last_id 2) peer-IsIn

remove_node-IsBucket_example : IsBucket 2 (remove_node (add_node whole (peer 5)).1 (peer 5))
remove_node-IsBucket_example =
    remove_node-IsBucket 2 (add_node whole (peer 5)).1 (peer 5) add_node-IsBucket_example

split-IsBucket_example :
    IsHalf 2 whole.lo (midpoint whole) (split 9 whole).0
    × IsHalf 2 (midpoint whole + 1) whole.hi (split 9 whole).1
split-IsBucket_example = split-IsBucket 9 2 whole (new-IsBucket 0 0 last_id 2)

abbrev fresh : RoutingTable
fresh = Table.new 0 (peer 0) 2

add_contact-IsTable_example :
    (r : Option Node × RoutingTable) × (add_contact 161 9 fresh (peer 5) ≡ some r) × IsTable r.1
unfolding from_id Node.new id_to_u256 Node.from_big_endian
add_contact-IsTable_example =
    add_contact-IsTable 9 fresh (peer 5) (new-IsTable 0 2 (peer 0) (omega arith))
      (peer-IsPeer 5 (omega arith)) (omega arith)

-- One bucket with two contacts.
abbrev two_contacts : ℕ → RoutingTable
two_contacts last_updated = record {
  node = peer 0;
  ksize = 2;
  buckets =
      record {
        lo = 0;
        hi = last_id;
        nodes = peer 9 ∷ peer 5 ∷ [];
        replacement_nodes = [];
        ksize = 2;
        max_replacement_nodes = 10;
        last_updated = last_updated;
      }
      ∷ [];
  health = λ q. none;
  min_lookup_contacts = 2;
}

two_contacts-find_neighbors :
    find_neighbors 7 (two_contacts 0) (peer 4) none ≡ some (peer 5 ∷ peer 9 ∷ [], two_contacts 7)
unfolding find_neighbors closest touch_target select candidates primaries bucket_index_for
    index_from covers touch_last_updated has_failures sort_by_key distance_to from_id Node.new
    id_to_u256 Node.from_big_endian bytes_discrete
two_contacts-find_neighbors = refl

find_neighbors-IsClosest_example :
    (keep : Node → Bool) × IsTier (two_contacts 0) (peer 4) none keep
    × IsSelected (two_contacts 0) (peer 4) none keep (peer 5 ∷ peer 9 ∷ [])
find_neighbors-IsClosest_example =
    find_neighbors-IsClosest 7 (two_contacts 0) (two_contacts 7) (peer 4) none
      (peer 5 ∷ peer 9 ∷ []) two_contacts-find_neighbors

split-HoldsEither_example :
    All (HoldsEither (split 9 (add_node whole (peer 5)).1)) (add_node whole (peer 5)).1.nodes
split-HoldsEither_example =
    split-HoldsEither 9 2 (add_node whole (peer 5)).1 add_node-IsBucket_example
