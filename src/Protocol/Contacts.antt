-- ===== src/Protocol/Contacts.antt =====
-- src/protocol/contacts.rs: contacts that fail, come back or are new.
use auth_kademlia_rs.Prelude.Options.{◌>>=◌}
use auth_kademlia_rs.Prelude.{
  ℕ, ◌+◌, ◌-◌, ◌%◌, Bool, false, not, ◌&&◌, Option, none, some, List, ◌∷◌, map, if◌then◌else◌,
  Bytes,
}
use auth_kademlia_rs.Prelude.KeyMap.{KeyMap}
use auth_kademlia_rs.Node.{Node, same_home_as}
use auth_kademlia_rs.Storage.{Slot}
use auth_kademlia_rs.Routing.Bucket.{KBucket}
use auth_kademlia_rs.Routing.Table.{RoutingTable, has_failures, is_stale, add_contact}
use auth_kademlia_rs.Routing.Table.Health.{
  record_success, get_contact, lonely_buckets, record_failure_at,
}
use auth_kademlia_rs.Protocol.{Instant, KademliaProtocol, ping_oldest, holds_id}

-- milliseconds
abbrev pub returned_after : ℕ
returned_after = 2500

-- The calls of `insert` in `add_contact`: one for each bit of an id, and one.
abbrev pub fuel : ℕ
fuel = 161

abbrev pub at_home : Option Node → Node → Bool
at_home none node = false
at_home (some contact) node = same_home_as contact node

unfoldable pub note_alive : RoutingTable → ℕ → Node → Option ℕ × RoutingTable
note_alive t millis node =
    if not (has_failures t node.id)
    then (none, t)
    else if not (at_home (get_contact t node.id) node) && not (is_stale t node.id)
    then (none, t)
    else record_success t node.id millis

unfoldable pub note_failure : (ℕ → ℕ) → RoutingTable → ℕ → Node → Option RoutingTable
note_failure spread t millis node = record_failure_at spread t node millis

-- The id in a bucket's range that the random bytes give; `val` fits in 160 bits.
unfoldable pub refresh_number : ℕ → KBucket → ℕ
refresh_number random b = b.lo + random % (b.hi - b.lo + 1)

-- `random` gives the number that the random bytes of each bucket spell.
unfoldable pub get_refresh_ids : (KBucket → ℕ) → RoutingTable → ℕ → List ℕ
unfolding refresh_number
get_refresh_ids random t secs = map (λ b. refresh_number (random b) b) (lonely_buckets t secs)

module _ {m : KeyMap Bytes Slot} where
  abbrev pub with_router : KademliaProtocol m → RoutingTable → KademliaProtocol m
  with_router p t = record p { router = t }

  -- The contact that a full bucket gave, unless its ping is in flight.
  unfoldable pub ping_if_idle : KademliaProtocol m → Option Node → KademliaProtocol m
  ping_if_idle p none = p
  ping_if_idle p (some oldest) =
      if holds_id p.oldest_pings_in_flight oldest.id then p else record p {
        oldest_pings_in_flight = oldest.id ∷ p.oldest_pings_in_flight;
        tasks = ping_oldest oldest ∷ p.tasks;
      }

  unfoldable pub add_contact_to : KademliaProtocol m → Instant → Node → Option (KademliaProtocol m)
  unfolding ping_if_idle
  add_contact_to p now node = do
    added ← add_contact fuel now.secs p.router node
    some (ping_if_idle (with_router p added.1) added.0)
