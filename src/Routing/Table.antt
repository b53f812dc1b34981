-- ===== src/Routing/Table.antt =====
-- src/routing.rs: `RoutingTable`. The `HashMap` of the failing contacts is the function from an id
-- to its entry. `none` of an operation is an index out of bounds, or the end of the fuel of `insert`.
-- Times are milliseconds; the part that `with_jitter` adds at random is the argument `spread`.
pub mod Health
pub mod Partition
pub mod Insert
pub mod Termination
pub mod Failures
pub mod Neighbors
pub mod Tiers
use mathlib.Core.Option.{map as option_map}
use auth_kademlia_rs.Prelude.{
  ℕ, zero, suc, ◌+◌, ◌-◌, ◌*◌, ◌%◌, ◌^◌, min, Bool, true, false, not, ◌||◌, Option, none, some,
  List, [], ◌∷◌, ◌++◌, ltb, leb, ◌==◌, if◌then◌else◌, Bytes, bytes_eq, length, get_elem?, set, take,
  drop, find,
}
use auth_kademlia_rs.Node.{Node}
use auth_kademlia_rs.Routing.Bucket.{
  KBucket, contains, add_node, remove_node, split, depth, head, covers,
}
use auth_kademlia_rs.Routing.Bucket as Bucket

abbrev pub stale_after_failures : ℕ
stale_after_failures = 5

abbrev pub backoff_base : ℕ
backoff_base = 5000

abbrev pub backoff_max : ℕ
backoff_max = 300000

abbrev pub default_min_lookup_contacts : ℕ
default_min_lookup_contacts = 2

unfoldable pub with_jitter : (ℕ → ℕ) → ℕ → ℕ
with_jitter spread delay = delay + spread delay

unfoldable pub backoff : (ℕ → ℕ) → ℕ → ℕ
unfolding with_jitter
backoff spread failures =
    with_jitter spread (min (backoff_base * 2 ^ min (failures - 1) 16) backoff_max)

pub record ContactHealth : Type 0 where
  pub failures : ℕ
  pub first_failure : ℕ
  pub retry_after : ℕ

abbrev pub HealthMap : Type 0
HealthMap = Bytes → Option ContactHealth

unfoldable pub health_insert : HealthMap → Bytes → ContactHealth → HealthMap
health_insert m id v q = if bytes_eq q id then some v else m q

unfoldable pub health_remove : HealthMap → Bytes → HealthMap
health_remove m id q = if bytes_eq q id then none else m q

pub record RoutingTable : Type 0 where
  pub node : Node
  pub ksize : ℕ
  pub buckets : List KBucket
  pub health : HealthMap
  pub min_lookup_contacts : ℕ

abbrev pub last_id : ℕ
last_id = 2 ^ 160 - 1

unfoldable pub new : ℕ → Node → ℕ → RoutingTable
new now_secs node ksize = record {
  node = node;
  ksize = ksize;
  buckets = Bucket.new now_secs 0 last_id ksize ∷ [];
  health = λ q. none;
  min_lookup_contacts = default_min_lookup_contacts;
}

unfoldable pub set_min_lookup_contacts : RoutingTable → ℕ → RoutingTable
set_min_lookup_contacts t count = record {
  node = t.node;
  ksize = t.ksize;
  buckets = t.buckets;
  health = t.health;
  min_lookup_contacts = count;
}

abbrev pub with_buckets : RoutingTable → List KBucket → HealthMap → RoutingTable
with_buckets t buckets health = record {
  node = t.node;
  ksize = t.ksize;
  buckets = buckets;
  health = health;
  min_lookup_contacts = t.min_lookup_contacts;
}

unfoldable pub index_from : ℕ → List KBucket → ℕ → Option ℕ
index_from i [] long_id = none
index_from i (b ∷ l) long_id = if covers b long_id then some i else index_from (i + 1) l long_id

abbrev pub unwrap_or : Option ℕ → ℕ → ℕ
unwrap_or none d = d
unwrap_or (some v) d = v

unfoldable pub bucket_index_for : RoutingTable → ℕ → ℕ
unfolding index_from
bucket_index_for t long_id = unwrap_or (index_from 0 t.buckets long_id) (length t.buckets - 1)

unfoldable pub is_stale_health : Option ContactHealth → Bool
is_stale_health none = false
is_stale_health (some h) = leb stale_after_failures h.failures

unfoldable pub is_stale : RoutingTable → Bytes → Bool
unfolding is_stale_health
is_stale t id = is_stale_health (t.health id)

abbrev pub is_some : {A : Type 0} → Option A → Bool
is_some none = false
is_some (some a) = true

unfoldable pub has_failures : RoutingTable → Bytes → Bool
has_failures t id = is_some (t.health id)

unfoldable pub remove_contact : RoutingTable → Node → Option RoutingTable
unfolding bucket_index_for health_remove
remove_contact t node =
    let idx = bucket_index_for t node.long_id in
    option_map
      (λ b.
        with_buckets t (set t.buckets idx (remove_node b node)) (health_remove t.health node.id))
      (get_elem? t.buckets idx)

abbrev pub remove_found : RoutingTable → Option Node → Option RoutingTable
remove_found t none = some t
remove_found t (some stale) = remove_contact t stale

unfoldable pub make_room : RoutingTable → Node → Option KBucket → Option RoutingTable
make_room t node none = none
make_room t node (some b) =
    if ltb (length b.nodes) t.ksize || contains b node
    then some t
    else remove_found t (find (λ n. is_stale t n.id) b.nodes)

unfoldable pub replace_stale_if_full : RoutingTable → ℕ → Node → Option RoutingTable
unfolding make_room
replace_stale_if_full t idx node = make_room t node (get_elem? t.buckets idx)

-- `remove(idx)`, then `insert(idx, high)` and `insert(idx, low)`.
unfoldable pub split_bucket : ℕ → RoutingTable → ℕ → Option RoutingTable
split_bucket now_secs t idx =
    option_map
      (λ b.
        let r = split now_secs b in
        with_buckets t (take idx t.buckets ++ r.0 ∷ r.1 ∷ drop (suc idx) t.buckets) t.health)
      (get_elem? t.buckets idx)

-- The bucket splits when it covers the local node, or at a depth that is no multiple of five.
unfoldable pub may_split : RoutingTable → KBucket → Bool
may_split t b = covers b t.node.long_id || not (depth b % 5 == 0)

abbrev pub Tried : Type 0
Tried = Bool × KBucket × ℕ × RoutingTable

unfoldable pub add_at : ℕ → RoutingTable → Node → Option KBucket → Option Tried
add_at idx u node none = none
add_at idx u node (some b) =
    let r = add_node b node in some (r.0, r.1, idx, with_buckets u (set u.buckets idx r.1) u.health)

abbrev pub try_at : ℕ → Node → Option RoutingTable → Option Tried
unfolding add_at
try_at idx node none = none
try_at idx node (some u) = add_at idx u node (get_elem? u.buckets idx)

-- `insert` up to the result of `add_node`.
unfoldable pub insert_step : RoutingTable → Node → Option Tried
unfolding try_at replace_stale_if_full
insert_step t node =
    let idx = bucket_index_for t node.long_id in try_at idx node (replace_stale_if_full t idx node)

abbrev pub Inserted : Type 0
Inserted = Option (Option Node × RoutingTable)

abbrev pub and_then : Option RoutingTable → (RoutingTable → Inserted) → Inserted
and_then none f = none
and_then (some v) f = f v

-- `insert` from the result of `add_node`; `again` is the recursive call.
unfoldable pub insert_rest : ℕ → (RoutingTable → Inserted) → Option Tried → Inserted
unfolding may_split split_bucket
insert_rest now_secs again none = none
insert_rest now_secs again (some (true, b, idx, u)) = some (none, u)
insert_rest now_secs again (some (false, b, idx, u)) =
    if may_split u b then and_then (split_bucket now_secs u idx) again else some (head b, u)

unfoldable pub insert : ℕ → ℕ → RoutingTable → Node → Inserted
unfolding insert_step insert_rest
insert zero now_secs t node = none
insert (suc fuel) now_secs t node =
    insert_rest now_secs (λ v. insert fuel now_secs v node) (insert_step t node)

unfoldable pub add_contact : ℕ → ℕ → RoutingTable → Node → Option (Option Node × RoutingTable)
unfolding insert
add_contact fuel now_secs t node =
    if bytes_eq node.id t.node.id then some (none, t) else insert fuel now_secs t node
