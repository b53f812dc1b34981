-- ===== src/Server.antt =====
-- src/network/mod.rs and src/network/read.rs: a node as its user has it, and its reads. A node that listens is its protocol, with which the server shares its storage and its
-- id. What the requests of a lookup get is the interface `SpiderProtocol`, and what they do to the
-- routing table is in Client. The outer `none` is an index out of bounds or the end of the fuel.
pub mod Update
pub mod Reads
pub mod Quorum
pub mod Decisions
pub mod Tests
use auth_kademlia_rs.Prelude.{
  ℕ, ◌+◌, ◌/◌, max, Bool, true, false, Option, none, some, List, [], ◌∷◌, if◌then◌else◌, Bytes,
  bytes_eq,
}
use mathlib.Core.Option.{map as option_map}
use auth_kademlia_rs.Prelude.Options.{◌>>=◌}
use auth_kademlia_rs.Prelude.KeyMap.{KeyMap}
use auth_kademlia_rs.Node.{Node, from_id}
use auth_kademlia_rs.Storage.{Slot}
use auth_kademlia_rs.Storage as Storage
use auth_kademlia_rs.Routing.Table.Neighbors.{find_neighbors}
use auth_kademlia_rs.Crawling.{SpiderProtocol, SpiderCrawl, new, find_quorum}
use auth_kademlia_rs.Crawling.Search.{find_first_valid}
use auth_kademlia_rs.Protocol.{Instant, KademliaProtocol, Settings}
use auth_kademlia_rs.Protocol.Contacts.{with_router}
use auth_kademlia_rs.Protocol.Handlers.{Result, verify_for_key}

-- `digest` is SHA-1, and `status_list_name` the text `STATUS_LIST_KEY`.
pub record Server (m : KeyMap Bytes Slot) : Type 0 where
  pub ksize : ℕ
  pub alpha : ℕ
  pub settings : Settings
  pub digest : Bytes → Bytes
  pub status_list_name : Bytes
  pub listening : Bool
  pub protocol : KademliaProtocol m

-- Byte-identical responses that a read of the Status List needs.
unfoldable pub read_quorum : ℕ → ℕ
read_quorum alpha = max alpha 1 / 2 + 1

abbrev pub to_list : Option Bytes → List Bytes
to_list none = []
to_list (some v) = v ∷ []

unfoldable pub keep_if : (Bytes → Bool) → Bytes → Option Bytes
keep_if valid v = if valid v then some v else none

unfoldable pub filter_value : (Bytes → Bool) → Option Bytes → Option Bytes
unfolding keep_if
filter_value valid none = none
filter_value valid (some v) = keep_if valid v

module _ {m : KeyMap Bytes Slot} (s : Server m) where
  unfoldable pub verify_value : Bytes → Bytes → Bool
  unfolding verify_for_key
  verify_value key value = verify_for_key s.settings (s.digest key) value

  abbrev pub is_status_list : Bytes → Bool
  is_status_list key = bytes_eq key s.status_list_name

  -- The lookup of a value, for the Status List and for others.
  unfoldable pub read_with :
      SpiderProtocol → ℕ → Bytes → Option Bytes → SpiderCrawl → Bool → Option (Option Bytes)
  unfolding verify_value find_first_valid find_quorum read_quorum filter_value keep_if
  read_with spider fuel key local_value crawl false =
      find_first_valid (keep_if (verify_value key)) spider fuel crawl
  read_with spider fuel key local_value crawl true =
      option_map (filter_value (verify_value key))
        (find_quorum fuel spider crawl (to_list local_value) (read_quorum s.alpha) (max s.alpha 1))

  -- The lookup, from the contacts that the routing table gives.
  unfoldable pub read_remote :
      SpiderProtocol → ℕ → Bytes → Option Bytes → List Node → Option (Option Bytes)
  unfolding read_with from_id new
  read_remote spider fuel key local_value [] = some none
  read_remote spider fuel key local_value (n ∷ l) =
      read_with spider fuel key local_value (new (from_id (s.digest key)) (n ∷ l) s.ksize s.alpha)
        (is_status_list key)

  unfoldable pub get_remote :
      SpiderProtocol → ℕ → Instant → Bytes → Option Bytes → Bool → Result m (Option Bytes)
  unfolding read_remote find_neighbors from_id
  get_remote spider fuel now key local_value false = some (none, s.protocol)
  get_remote spider fuel now key local_value true = do
    r ← find_neighbors now.secs s.protocol.router (from_id (s.digest key)) none
    v ← read_remote spider fuel key local_value r.0
    some (v, with_router s.protocol r.1)

  -- A record held here answers for a DID; the Status List is asked from others too.
  unfoldable pub get_from :
      SpiderProtocol → ℕ → Instant → Bytes → Option Bytes → Result m (Option Bytes)
  unfolding verify_value get_remote keep_if
  get_from spider fuel now key none = get_remote spider fuel now key none s.listening
  get_from spider fuel now key (some v) =
      if is_status_list key
      then get_remote spider fuel now key (some v) s.listening
      else some (keep_if (verify_value key) v, s.protocol)

  unfoldable pub get : SpiderProtocol → ℕ → Instant → Bytes → Result m (Option Bytes)
  unfolding get_from
  get spider fuel now key =
      get_from spider fuel now key (Storage.get m s.protocol.storage now.nanos (s.digest key))
