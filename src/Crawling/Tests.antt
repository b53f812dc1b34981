-- ===== src/Crawling/Tests.antt =====
-- src/crawling.rs: runs of the lookups, and the theorems at these inputs.
use auth_kademlia_rs.Prelude.{
  ℕ, ◌*◌, ◌≤◌, ◌<◌, ◌≡◌, refl, ◌↔◌, true, false, none, some, List, [], ◌∷◌, arith, Bytes,
  bytes_discrete, length, replicate, All,
}
use auth_kademlia_rs.Prelude.Sort.{sort_by_key}
use auth_kademlia_rs.Node.{Node, from_id, distance_to, id_to_u256, from_big_endian}
use auth_kademlia_rs.Node as Node
use auth_kademlia_rs.Node.Heap.{
  push, push_each, push_node, contains, trim, get_ids, to_vec, get_uncontacted, mark_contacted,
  remove, len, have_contacted_all,
}
use auth_kademlia_rs.Node.Heap as Heap
use auth_kademlia_rs.Crawling.{
  quorum_round, take_votes, selected_peers, peer_count, mark_all, remove_failed, extend,
  RawResponse, value, SpiderProtocol, find_quorum, SpiderCrawl, new, next_peers, bump, tally,
  choose, max_from, required_votes, strict_quorum_value,
}
use auth_kademlia_rs.Crawling.Votes.{occurrences, strict_quorum_value_iff}
use auth_kademlia_rs.Crawling.Quorum.{IsPoll, IsMajority, find_quorum-IsMajority}
use auth_kademlia_rs.Crawling.Rounds.{is_contacted, next_peers_once}

abbrev a : Bytes
a = 1 ∷ []

abbrev b : Bytes
b = 2 ∷ []

strict_quorum_value_iff_example : (strict_quorum_value (a ∷ b ∷ a ∷ []) 2 ≡ some a) ↔ (
    (2 ≤ occurrences a (a ∷ b ∷ a ∷ []))
    × (length (a ∷ b ∷ a ∷ []) < 2 * occurrences a (a ∷ b ∷ a ∷ [])))
strict_quorum_value_iff_example = strict_quorum_value_iff (a ∷ b ∷ a ∷ []) 2 a

-- Two against two is no quorum.
tie : strict_quorum_value (a ∷ b ∷ a ∷ b ∷ []) 1 ≡ none
unfolding strict_quorum_value tally bump choose max_from required_votes bytes_discrete
tie = refl

abbrev peer : ℕ → Node
peer n = from_id (replicate 20 n)

abbrev lookup : SpiderCrawl
lookup = new (peer 0) (peer 5 ∷ peer 6 ∷ []) 20 1

next_peers_once_example :
    (length (next_peers lookup 1).0 ≤ 1)
    × All (λ n. is_contacted lookup n ≡ false) (next_peers lookup 1).0
    × All (λ n. is_contacted (next_peers lookup 1).1 n ≡ true) (next_peers lookup 1).0
    × ((n : Node) → is_contacted lookup n ≡ true → is_contacted (next_peers lookup 1).1 n ≡ true)
next_peers_once_example = next_peers_once lookup 1

-- Every peer that is asked answers with `a`.
abbrev all_a : List Node → List (Bytes × RawResponse)
all_a [] = []
all_a (n ∷ l) = (n.id, (true, value a)) ∷ all_a l

all_a-length : (l : List Node) → length (all_a l) ≤ length l
all_a-length [] = omega arith
all_a-length (n ∷ l) = omega (arith, all_a-length l)

abbrev agreeing : SpiderProtocol
agreeing = record { answers = λ r l. all_a l; failing_among = λ l. [] }

find_quorum_run : find_quorum 2 agreeing lookup (a ∷ []) 2 3 ≡ some (some a)
unfolding find_quorum strict_quorum_value tally bump choose max_from required_votes bytes_discrete
    quorum_round next_peers selected_peers peer_count mark_all take_votes remove_failed extend new
    Heap.new push push_each push_node contains trim get_ids to_vec get_uncontacted mark_contacted
    remove len have_contacted_all sort_by_key from_id Node.new distance_to id_to_u256
    from_big_endian
find_quorum_run = refl

find_quorum-IsMajority_example :
    (votes : List Bytes) × IsPoll agreeing 3 lookup (a ∷ []) votes × IsMajority 2 3 a votes
find_quorum-IsMajority_example =
    find_quorum-IsMajority 2 agreeing lookup (a ∷ []) 2 3 a (λ r l. all_a-length l) (omega arith)
      find_quorum_run
