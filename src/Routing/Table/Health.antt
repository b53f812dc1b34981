-- ===== src/Routing/Table/Health.antt =====
-- src/routing.rs: failures of contacts, and the queries on the table.
use mathlib.Core.Option.{map as option_map}
use auth_kademlia_rs.Prelude.{
  ℕ, zero, suc, ◌+◌, ◌-◌, ◌*◌, ◌%◌, ◌^◌, ◌≤◌, ◌<◌, min, ◌≡◌, inl, inr, Bool, not, ◌&&◌, Option,
  none, some, List, [], ◌∷◌, ◌++◌, map, arith, ltb, leb, if◌then◌else◌, Bool-cases, Bytes, bytes_eq,
  length, get_elem?, set, take, retain, any, find,
}
use auth_kademlia_rs.Prelude.Sort.{sort_by_key}
use auth_kademlia_rs.Node.{Node}
use auth_kademlia_rs.Routing.Bucket.{
  KBucket, contains, remove_node, has_replacement, is_nil, is_lonely,
}
use auth_kademlia_rs.Routing.Table.{
  stale_after_failures, backoff_base, backoff_max, with_jitter, backoff, ContactHealth, HealthMap,
  health_insert, health_remove, RoutingTable, with_buckets, bucket_index_for, has_failures,
  remove_contact,
}

-- One more failure, counted in 32 bits; `none` inside the window of the backoff.
unfoldable pub count_failure : (ℕ → ℕ) → ℕ → Option ContactHealth → Option ContactHealth
unfolding backoff
count_failure spread now none =
    some (record { failures = 1; first_failure = now; retry_after = now + backoff spread 1 })
count_failure spread now (some h) =
    if ltb now h.retry_after
    then none
    else some (record {
      failures = (h.failures + 1) % 2 ^ 32;
      first_failure = h.first_failure;
      retry_after = now + backoff spread ((h.failures + 1) % 2 ^ 32);
    })

abbrev pub with_health : RoutingTable → HealthMap → RoutingTable
with_health t health = with_buckets t t.buckets health

-- The counted failure is stored; at the limit a contact gives way to a replacement.
unfoldable pub store_failure :
    RoutingTable → Node → KBucket → Option ContactHealth → Option RoutingTable
unfolding health_insert remove_contact
store_failure t node b none = some t
store_failure t node b (some h) =
    let u = with_health t (health_insert t.health node.id h) in
    if leb stale_after_failures h.failures && has_replacement b
    then remove_contact u node
    else some u

unfoldable pub failure_at :
    (ℕ → ℕ) → RoutingTable → Node → ℕ → ℕ → Option KBucket → Option RoutingTable
unfolding count_failure store_failure
failure_at spread t node now idx none = none
failure_at spread t node now idx (some b) =
    if contains b node
    then store_failure t node b (count_failure spread now (t.health node.id))
    else some (with_buckets t (set t.buckets idx (remove_node b node)) t.health)

unfoldable pub record_failure_at : (ℕ → ℕ) → RoutingTable → Node → ℕ → Option RoutingTable
unfolding failure_at
record_failure_at spread t node now =
    let idx = bucket_index_for t node.long_id in
    failure_at spread t node now idx (get_elem? t.buckets idx)

unfoldable pub record_success : RoutingTable → Bytes → ℕ → Option ℕ × RoutingTable
unfolding health_remove
record_success t id now = (
  option_map (λ h. now - h.first_failure) (t.health id),
  with_health t (health_remove t.health id),
)

-- The primary contacts, bucket by bucket.
unfoldable pub primaries : List KBucket → List Node
primaries [] = []
primaries (b ∷ l) = b.nodes ++ primaries l

unfoldable pub due_of : ℕ → Option ContactHealth → Node → List (ℕ × Node)
due_of now none n = []
due_of now (some h) n = if leb h.retry_after now then (h.retry_after, n) ∷ [] else []

unfoldable pub due_contacts : ℕ → HealthMap → List Node → List (ℕ × Node)
unfolding due_of
due_contacts now health [] = []
due_contacts now health (n ∷ l) = due_of now (health n.id) n ++ due_contacts now health l

unfoldable pub contacts_due_for_probe : RoutingTable → ℕ → ℕ → List Node
unfolding due_contacts
contacts_due_for_probe t now limit =
    map (λ e. e.1)
      (take limit (sort_by_key (λ e. e.0) (due_contacts now t.health (primaries t.buckets))))

unfoldable pub live_contacts : RoutingTable → ℕ
unfolding primaries
live_contacts t = length (retain (λ n. not (has_failures t n.id)) (primaries t.buckets))

unfoldable pub has_contacts : RoutingTable → Bool
has_contacts t = any (λ b. not (is_nil b.nodes)) t.buckets

unfoldable pub is_new_node : RoutingTable → Node → Option Bool
is_new_node t node =
    option_map (λ b. not (contains b node)) (get_elem? t.buckets (bucket_index_for t node.long_id))

unfoldable pub known_contacts : List KBucket → List Node
known_contacts [] = []
known_contacts (b ∷ l) = b.nodes ++ b.replacement_nodes ++ known_contacts l

unfoldable pub get_contact : RoutingTable → Bytes → Option Node
unfolding known_contacts
get_contact t id = find (λ n. bytes_eq n.id id) (known_contacts t.buckets)

unfoldable pub lonely_buckets : RoutingTable → ℕ → List KBucket
lonely_buckets t now_secs = retain (is_lonely now_secs) t.buckets

backoff_failures : (n : ℕ) → 1 ≤ 2 ^ n
backoff_failures zero = omega arith
backoff_failures (suc n) = omega (arith, backoff_failures n)

-- The wait after a failure is at least the base and, with the random part, at most five quarters
-- of the maximum, provided the random part is at most a quarter of the delay.
pub backoff_bounds :
    (spread : ℕ → ℕ) (failures : ℕ)
    → ((d : ℕ) → spread d * 4 ≤ d)
    → (backoff_base ≤ backoff spread failures) × (backoff spread failures * 4 ≤ backoff_max * 5)
unfolding backoff with_jitter
backoff_bounds spread failures q =
    let d = min (backoff_base * 2 ^ min (failures - 1) 16) backoff_max in
    (omega (arith, backoff_failures (min (failures - 1) 16)), omega (arith, q d))

-- A further failure that is counted comes no earlier than the end of the window; it adds one to the
-- count, keeps the time of the first failure, and opens a window at least as long as the base of the
-- backoff, provided the random part is at most a quarter of the delay and the count has room in 32
-- bits.
pub count_failure_window :
    (spread : ℕ → ℕ) (now : ℕ) (h h' : ContactHealth)
    → ((d : ℕ) → spread d * 4 ≤ d)
    → h.failures + 1 < 2 ^ 32
    → count_failure spread now (some h) ≡ some h'
    → (h.retry_after ≤ now)
      × (h'.failures ≡ h.failures + 1)
      × (h'.first_failure ≡ h.first_failure)
      × (now + backoff_base ≤ h'.retry_after)
unfolding count_failure
count_failure_window spread now h h' q f e = elim (Bool-cases (ltb now h.retry_after)) [
  | inl c ↦ absurd (ground arith)
  | inr c ↦
      let m : (h.failures + 1) % 2 ^ 32 ≡ h.failures + 1 = omega (arith, f) in
      let b = backoff_bounds spread ((h.failures + 1) % 2 ^ 32) q in ground (arith, b.0, m)
]
