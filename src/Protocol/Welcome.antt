-- ===== src/Protocol/Welcome.antt =====
-- src/protocol/welcome.rs: a node met through a message.
use auth_kademlia_rs.Prelude.Options.{◌>>=◌}
use auth_kademlia_rs.Prelude.{
  ℕ, Bool, true, false, ◌&&◌, Option, none, some, List, [], ◌∷◌, ltb, leb, ◌==◌, if◌then◌else◌,
  Bytes, bytes_eq, length, remove_first,
}
use auth_kademlia_rs.Prelude.KeyMap.{KeyMap}
use auth_kademlia_rs.Node.{Node, from_id, distance_to, id_len}
use auth_kademlia_rs.Storage.{Slot}
use auth_kademlia_rs.Routing.Table.{RoutingTable}
use auth_kademlia_rs.Routing.Table.Health.{is_new_node}
use auth_kademlia_rs.Routing.Table.Neighbors.{find_neighbors}
use auth_kademlia_rs.Protocol.{Instant, KademliaProtocol, Task, replicate_to, ping_oldest, holds_id}
use auth_kademlia_rs.Protocol.Contacts.{returned_after, note_alive, with_router, add_contact_to}

abbrev pub max_welcome_queue : ℕ
max_welcome_queue = 256

-- `is_some_and(|silent_for| silent_for >= RETURNED_AFTER)`
abbrev pub has_returned : Option ℕ → Bool
has_returned none = false
has_returned (some silent_for) = leb returned_after silent_for

-- `returned || is_new_node`, the second only asked where the first is false
abbrev pub is_welcome : Bool → RoutingTable → Node → Option Bool
is_welcome true t node = some true
is_welcome false t node = is_new_node t node

abbrev pub last_of : List Node → Option Node
last_of [] = none
last_of (n ∷ []) = some n
last_of (n ∷ o ∷ l) = last_of (o ∷ l)

abbrev pub first_of : List Node → Option Node
first_of [] = none
first_of (n ∷ l) = some n

-- Whether the node is closer to the target than another, if there is another.
abbrev pub closer_than : Node → Node → Option Node → Bool
closer_than node target none = true
closer_than node target (some other) = ltb (distance_to node target) (distance_to other target)

-- The decision of `replicate_to` for one record: `new_node_close && this_closest`.
unfoldable pub replicates : Node → Node → Node → List Node → Bool
replicates self_node node key_node neighbors =
    closer_than node key_node (last_of neighbors)
    && closer_than self_node key_node (first_of neighbors)

abbrev pub take_if : Bool → Bytes × Bytes → List (Bytes × Bytes) → List (Bytes × Bytes)
take_if true e l = e ∷ l
take_if false e l = l

-- The records that `replicate_to` sends, with the table that the lookups leave.
unfoldable pub keys_to_replicate :
    ℕ
    → RoutingTable
    → Node
    → Node
    → List (Bytes × Bytes)
    → Option (List (Bytes × Bytes) × RoutingTable)
unfolding replicates from_id
keys_to_replicate secs t self_node node [] = some ([], t)
keys_to_replicate secs t self_node node (e ∷ entries) =
    if length e.0 == id_len
    then (do
      found ← find_neighbors secs t (from_id e.0) (some node)
      rest ← keys_to_replicate secs found.1 self_node node entries
      some (take_if (replicates self_node node (from_id e.0) found.0) e rest.0, rest.1))
    else keys_to_replicate secs t self_node node entries

-- The tasks without the replication to the node of that id.
unfoldable pub end_replication : Bytes → List Task → List Task
end_replication id [] = []
end_replication id (replicate_to node ∷ l) =
    if bytes_eq node.id id then l else replicate_to node ∷ end_replication id l
end_replication id (ping_oldest node ∷ l) = ping_oldest node ∷ end_replication id l

module _ {m : KeyMap Bytes Slot} where
  unfoldable pub queue_replication : KademliaProtocol m → Node → KademliaProtocol m
  queue_replication p node =
      if holds_id p.welcome_in_flight node.id
      then p
      else if leb max_welcome_queue (length p.welcome_in_flight)
      then p
      else record p {
        welcome_in_flight = node.id ∷ p.welcome_in_flight;
        tasks = replicate_to node ∷ p.tasks;
      }

  unfoldable pub welcome_if :
      Bool → KademliaProtocol m → Instant → Node → Option (KademliaProtocol m)
  unfolding queue_replication add_contact_to
  welcome_if false p now node = some p
  welcome_if true p now node = do
    added ← add_contact_to p now node
    some (queue_replication added node)

  unfoldable pub schedule_welcome_if_new :
      KademliaProtocol m → Instant → Node → Option (KademliaProtocol m)
  unfolding note_alive welcome_if
  schedule_welcome_if_new p now node =
      let (silent, t) = note_alive p.router now.millis node in
      do
        wanted ← is_welcome (has_returned silent) t node
        welcome_if wanted (with_router p t) now node

  -- The end of the task that `replicate_to` runs in.
  unfoldable pub end_welcome : KademliaProtocol m → Bytes → KademliaProtocol m
  unfolding end_replication
  end_welcome p id = record p {
    welcome_in_flight = remove_first (λ q. bytes_eq q id) p.welcome_in_flight;
    tasks = end_replication id p.tasks;
  }
