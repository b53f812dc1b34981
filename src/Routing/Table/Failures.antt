-- ===== src/Routing/Table/Failures.antt =====
-- src/routing.rs: a recorded failure and a lookup find their buckets and keep the table well formed.
use auth_kademlia_rs.Prelude.{
  ℕ, ◌≤◌, ◌≡◌, refl, inl, inr, Bool, true, ◌&&◌, Option, none, some, List, arith, leb, Bool-cases,
  length, set,
}
use auth_kademlia_rs.Node.{Node}
use auth_kademlia_rs.Routing.Bucket.{
  KBucket, contains, remove_node, has_replacement, touch_last_updated, is_nil,
}
use auth_kademlia_rs.Routing.Bucket.Laws.{IsBucket}
use auth_kademlia_rs.Routing.Bucket.Replacements.{remove_node-IsBucket}
use auth_kademlia_rs.Routing.Table.{
  stale_after_failures, ContactHealth, HealthMap, health_insert, RoutingTable, with_buckets,
  last_id, bucket_index_for,
}
use auth_kademlia_rs.Routing.Table.Partition.{All-get_elem?}
use auth_kademlia_rs.Routing.Table.Health.{
  count_failure, with_health, store_failure, failure_at, record_failure_at,
}
use auth_kademlia_rs.Routing.Table.Neighbors.{
  touch_target, select, closest, find_neighbors, healthy_only, not_stale_only,
}
use auth_kademlia_rs.Routing.Table.Insert.{
  IsTable, bucket_index_for-IsTable, set-IsKept, remove_node-IsRange, remove_contact-IsKept,
}

pub with_health-IsTable : (t : RoutingTable) (h : HealthMap) → IsTable t → IsTable (with_health t h)
with_health-IsTable t h i = record { positive = i.positive; chain = i.chain; buckets = i.buckets }

store_failure-IsTable :
    (t : RoutingTable) (node : Node) (b : KBucket) (h : Option ContactHealth)
    → IsTable t
    → node.long_id ≤ last_id
    → (u : RoutingTable) × (store_failure t node b h ≡ some u) × IsTable u
unfolding store_failure
store_failure-IsTable t node b none i p = (t, refl, i)
store_failure-IsTable t node b (some h) i p =
    let m = with_health t (health_insert t.health node.id h) in
    let k = with_health-IsTable t (health_insert t.health node.id h) i in
    elim (Bool-cases (leb stale_after_failures h.failures && has_replacement b)) [
      | inl e ↦ let (u, q, r) = remove_contact-IsKept m node k p in (u, rw e q, r.table)
      | inr e ↦ (m, rw e refl, k)
    ]

-- On a well-formed table, recording the failure of a peer whose number is at most the last id finds
-- every index in bounds and leaves a well-formed table.
pub record_failure_at-IsTable :
    (spread : ℕ → ℕ) (t : RoutingTable) (node : Node) (now : ℕ)
    → IsTable t
    → node.long_id ≤ last_id
    → (u : RoutingTable) × (record_failure_at spread t node now ≡ some u) × IsTable u
unfolding record_failure_at failure_at
record_failure_at-IsTable spread t node now i p =
    let j = bucket_index_for t node.long_id in
    let (b, e, c) = bucket_index_for-IsTable t node.long_id i p in
    elim (Bool-cases (contains b node)) [
      | inl f ↦
          let (u, q, r) =
            store_failure-IsTable t node b (count_failure spread now (t.health node.id)) i p in
          (u, rw (e, f) q, r)
      | inr f ↦
          let k = set-IsKept t j b (remove_node b node) t.health i e (remove_node-IsRange b node) (
            remove_node-IsBucket t.ksize b node
              (All-get_elem? (IsBucket t.ksize) t.buckets j b i.buckets e)) in
          (with_buckets t (set t.buckets j (remove_node b node)) t.health, rw (e, f) refl, k.table)
    ]

touch-IsBucket :
    (k now_secs : ℕ) (b : KBucket) → IsBucket k b → IsBucket k (touch_last_updated now_secs b)
unfolding touch_last_updated
touch-IsBucket k now_secs b i = record {
  ksize = i.ksize;
  max_replacement_nodes = i.max_replacement_nodes;
  nodes-size = i.nodes-size;
  replacements-size = i.replacements-size;
  full = i.full;
  nodes-unique = i.nodes-unique;
  replacements-unique = i.replacements-unique;
  apart = i.apart;
  nodes-in = i.nodes-in;
  replacements-in = i.replacements-in;
}

pub closest-IsTable :
    (now_secs : ℕ) (t : RoutingTable) (target : Node) (exclude : Option Node) (keep : Node → Bool)
    → IsTable t
    → target.long_id ≤ last_id
    → (l : List Node) × (u : RoutingTable) × (closest now_secs t target exclude keep ≡ some (l, u))
      × IsTable u
unfolding closest touch_target touch_last_updated
closest-IsTable now_secs t target exclude keep i p =
    let j = bucket_index_for t target.long_id in
    let (b, e, c) = bucket_index_for-IsTable t target.long_id i p in
    let u = with_buckets t (set t.buckets j (touch_last_updated now_secs b)) t.health in
    let k =
      set-IsKept t j b (touch_last_updated now_secs b) t.health i e (refl, refl)
        (touch-IsBucket t.ksize now_secs b
          (All-get_elem? (IsBucket t.ksize) t.buckets j b i.buckets e)) in
    (select u target exclude keep, u, rw e refl, k.table)

-- On a well-formed table, a lookup of a target whose number is at most the last id finds every index
-- in bounds, returns, and leaves a well-formed table.
pub find_neighbors-IsTable :
    (now_secs : ℕ) (t : RoutingTable) (target : Node) (exclude : Option Node)
    → IsTable t
    → target.long_id ≤ last_id
    → (l : List Node) × (u : RoutingTable) × (find_neighbors now_secs t target exclude
        ≡ some (l, u))
      × IsTable u
unfolding find_neighbors
find_neighbors-IsTable now_secs t target exclude i p =
    let (hs, u, e, j) = closest-IsTable now_secs t target exclude (healthy_only t) i p in
    let (ns, v, f, k) = closest-IsTable now_secs u target exclude (not_stale_only u) j p in
    let (l, w, g, m) = closest-IsTable now_secs v target exclude (λ n. true) k p in
    elim (Bool-cases (leb t.min_lookup_contacts (length hs))) [
      | inl a ↦ (hs, u, ground (arith, e, a), j)
      | inr a ↦ elim (Bool-cases (is_nil ns)) [
        | inl b ↦ (l, w, ground (arith, e, a, f, b, g), m)
        | inr b ↦ (ns, v, ground (arith, e, a, f, b), k)
      ]
    ]
