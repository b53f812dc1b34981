-- ===== src/Crawling.antt =====
-- src/crawling.rs: the iterative lookups. What the network answers is the interface `SpiderProtocol`:
-- the responses to a round, in the order in which the code meets them, and the nodes that the caller
-- knows are failing. A set of ids is the list of its members. `none` of a loop is the end of its fuel.
pub mod Votes
pub mod Rounds
pub mod Quorum
pub mod Search
pub mod Silence
pub mod Tests
use auth_kademlia_rs.Prelude.{
  ℕ, zero, suc, ◌+◌, ◌-◌, ◌/◌, ◌^◌, min, max, Bool, true, false, not, ◌&&◌, ◌||◌, Option, none,
  some, List, [], ◌∷◌, ◌++◌, ltb, ◌==◌, if◌then◌else◌, Bytes, bytes_eq, length, take, retain, any,
}
use auth_kademlia_rs.Node.{Node, id_len}
use auth_kademlia_rs.Node as Node
use auth_kademlia_rs.Node.Heap.{
  NodeHeap, push, remove, get_ids, len, get_uncontacted, mark_contacted, to_vec, have_contacted_all,
}
use auth_kademlia_rs.Node.Heap as Heap

pub data FindPayload : Type 0 where
  nodes : List (Bytes × Option Bytes × Option ℕ) → FindPayload
  value : Bytes → FindPayload
  empty : FindPayload

abbrev pub RawResponse : Type 0
RawResponse = Bool × FindPayload

unfoldable pub get_value : FindPayload → Option Bytes
get_value (nodes l) = none
get_value (value v) = some v
get_value empty = none

unfoldable pub nodes_of : List (Bytes × Option Bytes × Option ℕ) → List Node
nodes_of [] = []
nodes_of ((id, ip, port) ∷ l) =
    if length id == id_len then Node.new id ip port ∷ nodes_of l else nodes_of l

unfoldable pub get_node_list : FindPayload → List Node
unfolding nodes_of
get_node_list (nodes l) = nodes_of l
get_node_list (value v) = []
get_node_list empty = []

pub record SpiderProtocol : Type 0 where
  pub answers : ℕ → List Node → List (Bytes × RawResponse)
  pub failing_among : List Node → List Bytes

pub record LookupNodes : Type 0 where
  pub found : List Node
  pub unresponsive : ℕ

pub record SpiderCrawl : Type 0 where
  pub ksize : ℕ
  pub alpha : ℕ
  pub node : Node
  pub nearest : NodeHeap
  pub last_ids_crawled : List Bytes
  pub failed : List Bytes
  pub skipped : List Bytes
  pub ask_everyone : Bool
  pub rounds : ℕ

unfoldable pub new : Node → List Node → ℕ → ℕ → SpiderCrawl
new node peers ksize alpha = record {
  ksize = ksize;
  alpha = alpha;
  node = node;
  nearest = push (Heap.new node ksize) peers;
  last_ids_crawled = [];
  failed = [];
  skipped = [];
  ask_everyone = false;
  rounds = 0;
}

abbrev pub has_id : List Bytes → Bytes → Bool
has_id l id = any (bytes_eq id) l

-- `extend` of a set.
unfoldable pub extend : List Bytes → List Bytes → List Bytes
extend s [] = s
extend s (id ∷ l) = extend (if has_id s id then s else id ∷ s) l

abbrev pub with_nearest : SpiderCrawl → NodeHeap → List Bytes → List Bytes → SpiderCrawl
with_nearest c nearest failed skipped = record {
  ksize = c.ksize;
  alpha = c.alpha;
  node = c.node;
  nearest = nearest;
  last_ids_crawled = c.last_ids_crawled;
  failed = failed;
  skipped = skipped;
  ask_everyone = c.ask_everyone;
  rounds = c.rounds;
}

unfoldable pub add_reported : SpiderProtocol → SpiderCrawl → List Node → SpiderCrawl
unfolding extend
add_reported p c reported =
    let known_failing = p.failing_among reported in
    let usable =
      retain (λ n. not (has_id c.failed n.id) && not (has_id known_failing n.id)) reported in
    with_nearest c (push c.nearest usable) c.failed (extend c.skipped known_failing)

unfoldable pub remove_failed : SpiderCrawl → List Bytes → SpiderCrawl
unfolding extend
remove_failed c peers = with_nearest c (remove c.nearest peers) (extend c.failed peers) c.skipped

unfoldable pub lookup_nodes : SpiderCrawl → LookupNodes
unfolding extend
lookup_nodes c = record {
  found = to_vec c.nearest;
  unresponsive = length (extend c.failed c.skipped);
}

abbrev pub ids_eq : List Bytes → List Bytes → Bool
ids_eq [] [] = true
ids_eq (a ∷ l) (b ∷ m) = bytes_eq a b && ids_eq l m
ids_eq _ _ = false

unfoldable pub mark_all : NodeHeap → List Node → NodeHeap
mark_all h [] = h
mark_all h (n ∷ l) = mark_all (mark_contacted h n) l

unfoldable pub peer_count : SpiderCrawl → ℕ → ℕ
peer_count c limit =
    min
      (if c.ask_everyone || ids_eq (get_ids c.nearest) c.last_ids_crawled
        then len c.nearest
        else c.alpha)
      limit

unfoldable pub selected_peers : SpiderCrawl → ℕ → List Node
unfolding peer_count
selected_peers c limit = take (peer_count c limit) (get_uncontacted c.nearest)

unfoldable pub next_peers : SpiderCrawl → ℕ → List Node × SpiderCrawl
unfolding selected_peers mark_all
next_peers c limit =
    let peers = selected_peers c limit in
    (
      peers,
      record {
        ksize = c.ksize;
        alpha = c.alpha;
        node = c.node;
        nearest = mark_all c.nearest peers;
        last_ids_crawled = get_ids c.nearest;
        failed = c.failed;
        skipped = c.skipped;
        ask_everyone = c.ask_everyone;
        rounds = c.rounds + (if ltb 0 (length peers) then 1 else 0);
      },
    )

abbrev pub usize_max : ℕ
usize_max = 2 ^ 64 - 1

-- A node lookup's treatment of a round's responses, and the ids that did not respond.
unfoldable pub take_answers :
    SpiderProtocol
    → SpiderCrawl
    → List (Bytes × RawResponse)
    → List Bytes
    → SpiderCrawl × List Bytes
unfolding add_reported
take_answers p c [] to_remove = (c, to_remove)
take_answers p c ((id, (happened, payload)) ∷ l) to_remove =
    if happened
    then take_answers p (add_reported p c (get_node_list payload)) l to_remove
    else take_answers p c l (to_remove ++ id ∷ [])

unfoldable pub node_round : SpiderProtocol → SpiderCrawl → SpiderCrawl
unfolding next_peers take_answers remove_failed
node_round p c =
    let n = next_peers c usize_max in
    let t = take_answers p n.1 (p.answers c.rounds n.0) [] in remove_failed t.0 t.1

unfoldable pub find_lookup_nodes : ℕ → SpiderProtocol → SpiderCrawl → Option LookupNodes
unfolding node_round lookup_nodes
find_lookup_nodes zero p c = none
find_lookup_nodes (suc fuel) p c =
    let d = node_round p c in
    let rest = find_lookup_nodes fuel p d in
    if have_contacted_all d.nearest then some (lookup_nodes d) else rest

-- `counts.entry(value).or_insert(0) += 1`
unfoldable pub bump : Bytes → List (Bytes × ℕ) → List (Bytes × ℕ)
bump v [] = (v, 1) ∷ []
bump v ((w, n) ∷ l) = if bytes_eq w v then (w, n + 1) ∷ l else (w, n) ∷ bump v l

unfoldable pub tally : List (Bytes × ℕ) → List Bytes → List (Bytes × ℕ)
unfolding bump
tally l [] = l
tally l (v ∷ vs) = tally (bump v l) vs

unfoldable pub max_from : ℕ → List (Bytes × ℕ) → ℕ
max_from a [] = a
max_from a ((w, n) ∷ l) = max_from (max a n) l

abbrev pub sole : List (Bytes × ℕ) → Option Bytes
sole [] = none
sole ((w, n) ∷ []) = some w
sole (a ∷ b ∷ l) = none

unfoldable pub required_votes : List Bytes → ℕ → ℕ
required_votes values minimum_votes = max minimum_votes (length values / 2 + 1)

-- The choice of the winner, from the counts.
unfoldable pub choose : ℕ → List (Bytes × ℕ) → Option Bytes
unfolding max_from
choose required [] = none
choose required ((w, n) ∷ l) =
    let highest = max_from n l in
    if ltb highest required then none else sole (retain (λ e. e.1 == highest) ((w, n) ∷ l))

unfoldable pub strict_quorum_value : List Bytes → ℕ → Option Bytes
unfolding tally choose required_votes
strict_quorum_value values minimum_votes =
    choose (required_votes values minimum_votes) (tally [] values)

-- One round of `find_quorum`: the values it finds come behind those found before.
unfoldable pub take_votes :
    SpiderProtocol
    → SpiderCrawl
    → List (Bytes × RawResponse)
    → List Bytes
    → List Bytes
    → SpiderCrawl × List Bytes × List Bytes
unfolding add_reported
take_votes p c [] to_remove values = (c, to_remove, values)
take_votes p c ((id, (false, payload)) ∷ l) to_remove values =
    take_votes p c l (to_remove ++ id ∷ []) values
take_votes p c ((id, (true, value v)) ∷ l) to_remove values =
    take_votes p c l to_remove (values ++ v ∷ [])
take_votes p c ((id, (true, nodes m)) ∷ l) to_remove values =
    take_votes p (add_reported p c (get_node_list (nodes m))) l to_remove values
take_votes p c ((id, (true, empty)) ∷ l) to_remove values =
    take_votes p (add_reported p c (get_node_list empty)) l to_remove values

unfoldable pub quorum_round :
    SpiderProtocol → SpiderCrawl → List Bytes → ℕ → SpiderCrawl × List Bytes
unfolding next_peers take_votes remove_failed
quorum_round p c values remaining =
    let n = next_peers c remaining in
    let t = take_votes p n.1 (p.answers c.rounds n.0) [] values in (remove_failed t.0 t.1, t.2)

abbrev pub is_some : Option Bytes → Bool
is_some none = false
is_some (some v) = true

-- The outer `none` is the end of the fuel.
unfoldable pub find_quorum :
    ℕ → SpiderProtocol → SpiderCrawl → List Bytes → ℕ → ℕ → Option (Option Bytes)
unfolding strict_quorum_value quorum_round
find_quorum zero p c values minimum_votes maximum_votes = none
find_quorum (suc fuel) p c values minimum_votes maximum_votes =
    let found = strict_quorum_value values minimum_votes in
    let remaining = maximum_votes - length values in
    let r = quorum_round p c values remaining in
    let rest = find_quorum fuel p r.0 r.1 minimum_votes maximum_votes in
    if is_some found
    then some found
    else if remaining == 0 || have_contacted_all c.nearest
    then some none
    else rest
