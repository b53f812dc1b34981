-- ===== src/Node/Heap.antt =====
-- src/node.rs: `NodeHeap`, the k closest peers of a lookup. The set of contacted ids is the list of
-- its members.
pub mod Laws
pub mod Closest
use auth_kademlia_rs.Prelude.{
  ℕ, min, Bool, true, false, not, ◌||◌, Option, none, some, List, [], ◌∷◌, ◌++◌, map, if◌then◌else◌,
  Bytes, bytes_eq, length, take, retain, any, find,
}
use auth_kademlia_rs.Prelude.Sort.{sort_by_key}
use auth_kademlia_rs.Node.{Node, distance_to}

pub record HeapEntry : Type 0 where
  pub distance : ℕ
  pub node : Node

pub record NodeHeap : Type 0 where
  pub node : Node
  pub entries : List HeapEntry
  pub contacted : List Bytes
  pub maxsize : ℕ

abbrev pub entry_id : HeapEntry → Bytes
entry_id e = e.node.id

unfoldable pub new : Node → ℕ → NodeHeap
new node maxsize = record { node = node; entries = []; contacted = []; maxsize = maxsize }

abbrev pub with_entries : NodeHeap → List HeapEntry → NodeHeap
with_entries h l = record {
  node = h.node;
  entries = l;
  contacted = h.contacted;
  maxsize = h.maxsize;
}

unfoldable pub contains : NodeHeap → Node → Bool
contains h node = any (λ e. bytes_eq (entry_id e) node.id) h.entries

-- One turn of the loop of `push`.
unfoldable pub push_node : NodeHeap → Node → NodeHeap
unfolding contains
push_node h node =
    if contains h node
    then h
    else with_entries h
        (h.entries ++ record { distance = distance_to h.node node; node = node } ∷ [])

unfoldable pub push_each : NodeHeap → Bool → List Node → NodeHeap × Bool
unfolding push_node
push_each h added [] = (h, added)
push_each h added (node ∷ nodes) =
    push_each (push_node h node) (added || not (contains h node)) nodes

unfoldable pub trim : NodeHeap → NodeHeap
trim h = with_entries h (take h.maxsize (sort_by_key (λ e. e.distance) h.entries))

unfoldable pub push : NodeHeap → List Node → NodeHeap
unfolding push_each trim
push h nodes = let r = push_each h false nodes in if r.1 then trim r.0 else r.0

unfoldable pub push_one : NodeHeap → Node → NodeHeap
unfolding push
push_one h node = push h (node ∷ [])

unfoldable pub remove : NodeHeap → List Bytes → NodeHeap
remove h peers = with_entries h (retain (λ e. not (any (bytes_eq (entry_id e)) peers)) h.entries)

abbrev pub pop_entries : List HeapEntry → Option Node × List HeapEntry
pop_entries [] = (none, [])
pop_entries (e ∷ l) = (some e.node, l)

unfoldable pub popleft : NodeHeap → Option Node × NodeHeap
popleft h = let r = pop_entries h.entries in (r.0, with_entries h (r.1))

unfoldable pub to_vec : NodeHeap → List Node
to_vec h = map (λ e. e.node) (take h.maxsize h.entries)

unfoldable pub get_node : NodeHeap → Bytes → Option Node
get_node h node_id = find (λ n. bytes_eq n.id node_id) (map (λ e. e.node) h.entries)

unfoldable pub mark_contacted : NodeHeap → Node → NodeHeap
mark_contacted h node = record {
  node = h.node;
  entries = h.entries;
  maxsize = h.maxsize;
  contacted = if any (bytes_eq node.id) h.contacted then h.contacted else node.id ∷ h.contacted;
}

unfoldable pub get_uncontacted : NodeHeap → List Node
unfolding to_vec
get_uncontacted h = retain (λ n. not (any (bytes_eq n.id) h.contacted)) (to_vec h)

abbrev pub is_nil {ℓ} : {A : Type ℓ} → List A → Bool
is_nil [] = true
is_nil (x ∷ xs) = false

unfoldable pub have_contacted_all : NodeHeap → Bool
unfolding get_uncontacted
have_contacted_all h = is_nil (get_uncontacted h)

unfoldable pub get_ids : NodeHeap → List Bytes
unfolding to_vec
get_ids h = map (λ n. n.id) (to_vec h)

unfoldable pub len : NodeHeap → ℕ
len h = min (length h.entries) h.maxsize

unfoldable pub is_empty : NodeHeap → Bool
is_empty h = is_nil h.entries
