-- ===== src/Protocol/Upkeep.antt =====
-- src/protocol/contacts.rs and src/protocol/welcome.rs: meeting a node keeps the routing table well
-- formed, and the queue of replications within its bound.
use auth_kademlia_rs.Prelude.{
  ℕ, ◌≤◌, ◌≡◌, refl, sym, ap, subst, ◌∙◌, inl, inr, Bool, true, false, not, Option, none, some,
  List, [], ◌∷◌, arith, leb, Bool-cases, Bytes, bytes_eq, length, remove_first, All-remove_first,
}
use auth_kademlia_rs.Prelude.KeyMap.{KeyMap}
use auth_kademlia_rs.Prelude.Unique.{IsUnique, any-false-All}
use auth_kademlia_rs.Node.{Node}
use auth_kademlia_rs.Node.Distance.{id_to_u256_bound}
use auth_kademlia_rs.Storage.{Slot}
use auth_kademlia_rs.Routing.Bucket.{contains}
use auth_kademlia_rs.Routing.Bucket.Laws.{IsPeer}
use auth_kademlia_rs.Routing.Table.{RoutingTable, last_id}
use auth_kademlia_rs.Routing.Table.Insert.{IsTable, bucket_index_for-IsTable}
use auth_kademlia_rs.Routing.Table.Termination.{add_contact-IsTable}
use auth_kademlia_rs.Routing.Table.Failures.{with_health-IsTable}
use auth_kademlia_rs.Routing.Table.Health.{record_success, is_new_node}
use auth_kademlia_rs.Protocol.{Instant, KademliaProtocol, Task, replicate_to, ping_oldest, holds_id}
use auth_kademlia_rs.Protocol.Contacts.{note_alive, with_router, ping_if_idle, add_contact_to}
use auth_kademlia_rs.Protocol.Welcome.{
  max_welcome_queue, has_returned, is_welcome, end_replication, end_welcome, queue_replication,
  welcome_if, schedule_welcome_if_new,
}

pub peer_bound : (n : Node) → IsPeer n → n.long_id ≤ last_id
peer_bound n (node, bytes, size) =
    subst (λ x. x ≤ last_id) (sym node) (id_to_u256_bound n.id bytes size)

-- The nodes to which a task is sending, or waits to send, the records they should hold.
unfoldable pub replications : List Task → List Bytes
replications [] = []
replications (replicate_to node ∷ l) = node.id ∷ replications l
replications (ping_oldest node ∷ l) = replications l

-- The routing table is well formed, and the marked nodes, at most 256 and each once, are those for
-- which a replication waits or runs.
pub record IsProtocol {m : KeyMap Bytes Slot} (p : KademliaProtocol m) : Type 0 where
  pub table : IsTable p.router
  pub queue : length p.welcome_in_flight ≤ max_welcome_queue
  pub once : IsUnique (λ q. q) p.welcome_in_flight
  pub waiting : p.welcome_in_flight ≡ replications p.tasks

record_success-IsTable :
    (t : RoutingTable) (id : Bytes) (millis : ℕ)
    → IsTable t
    → IsTable (record_success t id millis).1
unfolding record_success
record_success-IsTable t id millis i = with_health-IsTable t _ i

pub note_alive-IsTable :
    (t : RoutingTable) (millis : ℕ) (node : Node) → IsTable t → IsTable (note_alive t millis node).1
unfolding note_alive
note_alive-IsTable t millis node i = ground (arith, i, record_success-IsTable t node.id millis i)

is_new_node_total :
    (t : RoutingTable) (node : Node)
    → IsTable t
    → node.long_id ≤ last_id
    → (b : Bool) × (is_new_node t node ≡ some b)
unfolding is_new_node
is_new_node_total t node i p =
    let (b, e, c) = bucket_index_for-IsTable t node.long_id i p in
    (not (contains b node), rw e refl)

is_welcome_total :
    (b : Bool) (t : RoutingTable) (node : Node)
    → IsTable t
    → node.long_id ≤ last_id
    → (w : Bool) × (is_welcome b t node ≡ some w)
is_welcome_total true t node i p = (true, refl)
is_welcome_total false t node i p = is_new_node_total t node i p

remove-replications :
    (id : Bytes) (l : List Task)
    → replications (end_replication id l) ≡ remove_first (λ q. bytes_eq q id) (replications l)
unfolding replications end_replication
remove-replications id [] = refl
remove-replications id (ping_oldest n ∷ l) = remove-replications id l
remove-replications id (replicate_to n ∷ l) = elim (Bool-cases (bytes_eq n.id id)) [
  | inl e ↦ rw e refl
  | inr e ↦ rw e (ap (λ k. n.id ∷ k) (remove-replications id l))
]

length-remove_first-le : (p : Bytes → Bool) (l : List Bytes) → length (remove_first p l) ≤ length l
length-remove_first-le p [] = omega arith
length-remove_first-le p (x ∷ l) = ground (arith, length-remove_first-le p l)

remove_first-IsUnique :
    (p : Bytes → Bool) (l : List Bytes) → IsUnique (λ q. q) l → IsUnique (λ q. q) (remove_first p l)
remove_first-IsUnique p [] h = tt
remove_first-IsUnique p (x ∷ l) h = elim (Bool-cases (p x)) [
  | inl e ↦ rw e h.1
  | inr e ↦ rw e (All-remove_first _ p l h.0, remove_first-IsUnique p l h.1)
]

module _ {m : KeyMap Bytes Slot} where
  ping_if_idle-IsProtocol :
      (p : KademliaProtocol m) (o : Option Node) → IsProtocol p → IsProtocol (ping_if_idle p o)
  unfolding ping_if_idle replications
  ping_if_idle-IsProtocol p none i = i
  ping_if_idle-IsProtocol p (some o) i =
      elim (Bool-cases (holds_id p.oldest_pings_in_flight o.id)) [
        | inl e ↦ rw e i
        | inr e ↦
            rw e (record { table = i.table; queue = i.queue; once = i.once; waiting = i.waiting })
      ]

  add_contact_to-IsProtocol :
      (p : KademliaProtocol m) (now : Instant) (node : Node)
      → IsPeer node
      → IsProtocol p
      → (q : KademliaProtocol m) × (add_contact_to p now node ≡ some q) × IsProtocol q
  unfolding add_contact_to
  add_contact_to-IsProtocol p now node peer i =
      let (r, e, t) =
        add_contact-IsTable now.secs p.router node i.table peer (peer_bound node peer) in
      (
        ping_if_idle (with_router p r.1) r.0,
        rw e refl,
        ping_if_idle-IsProtocol (with_router p r.1) r.0
            (record { table = t; queue = i.queue; once = i.once; waiting = i.waiting }),
      )

  queue_replication-IsProtocol :
      (p : KademliaProtocol m) (node : Node) → IsProtocol p → IsProtocol (queue_replication p node)
  unfolding queue_replication replications
  queue_replication-IsProtocol p node i = elim (Bool-cases (holds_id p.welcome_in_flight node.id)) [
    | inl e ↦ rw e i
    | inr e ↦ elim (Bool-cases (leb max_welcome_queue (length p.welcome_in_flight))) [
      | inl full ↦ rw (e, full) i
      | inr room ↦
          rw (e, room)
            (record {
              table = i.table;
              queue = ground arith;
              once = (any-false-All (λ q. q) node.id p.welcome_in_flight e, i.once);
              waiting = ap (λ l. node.id ∷ l) i.waiting;
            })
    ]
  ]

  welcome_if-IsProtocol :
      (b : Bool) (p : KademliaProtocol m) (now : Instant) (node : Node)
      → IsPeer node
      → IsProtocol p
      → (q : KademliaProtocol m) × (welcome_if b p now node ≡ some q) × IsProtocol q
  unfolding welcome_if
  welcome_if-IsProtocol false p now node peer i = (p, refl, i)
  welcome_if-IsProtocol true p now node peer i =
      let (q, e, j) = add_contact_to-IsProtocol p now node peer i in
      (queue_replication q node, rw e refl, queue_replication-IsProtocol q node j)

  end_welcome-IsProtocol :
      (p : KademliaProtocol m) (id : Bytes) → IsProtocol p → IsProtocol (end_welcome p id)
  unfolding end_welcome
  end_welcome-IsProtocol p id i = record {
    table = i.table;
    queue = omega (arith, i.queue, length-remove_first-le (λ q. bytes_eq q id) p.welcome_in_flight);
    once = remove_first-IsUnique (λ q. bytes_eq q id) p.welcome_in_flight i.once;
    waiting =
        ap (remove_first (λ q. bytes_eq q id)) i.waiting ∙ sym (remove-replications id p.tasks);
  }

  -- A node met through a message, with a 20-byte id, is dealt with: every index is in bounds, the
  -- routing table stays well formed, and at most 256 replications, to different nodes, wait or run,
  -- and they are those that are marked; and the end of any of them keeps that.
  pub schedule_welcome_if_new-IsProtocol :
      (p : KademliaProtocol m) (now : Instant) (node : Node)
      → IsPeer node
      → IsProtocol p
      → (q : KademliaProtocol m) × (schedule_welcome_if_new p now node ≡ some q)
        × IsProtocol q
        × ((id : Bytes) → IsProtocol (end_welcome q id))
  unfolding schedule_welcome_if_new
  schedule_welcome_if_new-IsProtocol p now node peer i =
      let t = note_alive p.router now.millis node in
      let k = note_alive-IsTable p.router now.millis node i.table in
      let (w, e) = is_welcome_total (has_returned t.0) t.1 node k (peer_bound node peer) in
      let (q, f, j) =
        welcome_if-IsProtocol w (with_router p t.1) now node peer
          (record { table = k; queue = i.queue; once = i.once; waiting = i.waiting }) in
      (q, rw (e, f) refl, j, λ id. end_welcome-IsProtocol q id j)
