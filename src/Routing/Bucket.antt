-- ===== src/Routing/Bucket.antt =====
-- src/routing.rs: `KBucket`. A `VecDeque` is the list of its elements from the front; the range is
-- its two ends; the seconds since the epoch are the argument `now_secs`.
pub mod Laws
pub mod Replacements
pub mod Split
pub mod Keeps
use auth_kademlia_rs.Prelude.{
  ℕ, zero, suc, ◌+◌, ◌-◌, ◌*◌, ◌/◌, ◌%◌, ◌^◌, max, Bool, true, false, not, ◌&&◌, Option, none, some,
  List, [], ◌∷◌, ◌++◌, ltb, leb, ◌==◌, if◌then◌else◌, Bytes, bytes_eq, length, get_elem?, retain,
  any, remove_first,
}
use auth_kademlia_rs.Node.{Node}

pub record KBucket : Type 0 where
  pub lo : ℕ
  pub hi : ℕ
  pub nodes : List Node
  pub replacement_nodes : List Node
  pub ksize : ℕ
  pub max_replacement_nodes : ℕ
  pub last_updated : ℕ

unfoldable pub new : ℕ → ℕ → ℕ → ℕ → KBucket
new now_secs lo hi ksize = record {
  lo = lo;
  hi = hi;
  nodes = [];
  replacement_nodes = [];
  ksize = ksize;
  max_replacement_nodes = ksize * 5;
  last_updated = now_secs;
}

abbrev pub with_nodes : KBucket → List Node → List Node → KBucket
with_nodes b nodes replacement_nodes = record {
  lo = b.lo;
  hi = b.hi;
  nodes = nodes;
  replacement_nodes = replacement_nodes;
  ksize = b.ksize;
  max_replacement_nodes = b.max_replacement_nodes;
  last_updated = b.last_updated;
}

unfoldable pub touch_last_updated : ℕ → KBucket → KBucket
touch_last_updated now_secs b = record {
  lo = b.lo;
  hi = b.hi;
  nodes = b.nodes;
  replacement_nodes = b.replacement_nodes;
  ksize = b.ksize;
  max_replacement_nodes = b.max_replacement_nodes;
  last_updated = now_secs;
}

-- `n.id == node.id`
abbrev pub same_id : Node → Node → Bool
same_id node n = bytes_eq n.id node.id

unfoldable pub contains : KBucket → Node → Bool
contains b node = any (same_id node) b.nodes

-- `while l.len() > max { l.pop_front() }`
unfoldable pub cap : ℕ → List Node → List Node
cap max [] = []
cap max (x ∷ l) = if ltb max (suc (length l)) then cap max l else x ∷ l

unfoldable pub add_node : KBucket → Node → Bool × KBucket
unfolding contains cap
add_node b node =
    if contains b node
    then (true, with_nodes b (remove_first (same_id node) b.nodes ++ node ∷ []) b.replacement_nodes)
    else if ltb (length b.nodes) b.ksize
    then (true, with_nodes b (b.nodes ++ node ∷ []) b.replacement_nodes)
    else (
      false,
      with_nodes b b.nodes (
          cap b.max_replacement_nodes
            (remove_first (same_id node) b.replacement_nodes ++ node ∷ [])),
    )

-- `pop_back`: what is left, and the last element as a list of at most one.
unfoldable pub pop_back : List Node → List Node × List Node
pop_back [] = ([], [])
pop_back (x ∷ []) = ([], x ∷ [])
pop_back (x ∷ y ∷ l) = let r = pop_back (y ∷ l) in (x ∷ r.0, r.1)

unfoldable pub remove_node : KBucket → Node → KBucket
unfolding contains pop_back
remove_node b node =
    let replacements = retain (λ n. not (same_id node n)) b.replacement_nodes in
    if contains b node
    then with_nodes b (remove_first (same_id node) b.nodes ++ (pop_back replacements).1)
        (pop_back replacements).0
    else with_nodes b b.nodes replacements

unfoldable pub midpoint : KBucket → ℕ
midpoint b = b.lo + (b.hi - b.lo) / 2

-- The loop of `split`.
unfoldable pub distribute : ℕ → List Node → KBucket → KBucket → KBucket × KBucket
unfolding add_node
distribute mid [] low high = (low, high)
distribute mid (n ∷ l) low high =
    if leb n.long_id mid
    then distribute mid l (add_node low n).1 high
    else distribute mid l low (add_node high n).1

unfoldable pub split : ℕ → KBucket → KBucket × KBucket
unfolding new midpoint distribute
split now_secs b =
    distribute (midpoint b) (b.nodes ++ b.replacement_nodes)
      (new now_secs b.lo (midpoint b) b.ksize) (new now_secs (midpoint b + 1) b.hi b.ksize)

-- `(id[byte_idx] >> shift) & 1`, nothing out of bounds.
abbrev pub bit_of : Option ℕ → ℕ → Option ℕ
bit_of none shift = none
bit_of (some byte) shift = some (byte / 2 ^ shift % 2)

abbrev pub bit_eq : Option ℕ → ℕ → Bool
bit_eq none bit = false
bit_eq (some x) bit = x == bit

unfoldable pub all_agree : ℕ → ℕ → ℕ → List Node → Bool
all_agree byte_idx shift bit others =
    not (any (λ n. not (bit_eq (bit_of (get_elem? n.id byte_idx) shift) bit)) others)

-- The shifts below `shifts`, from the highest: the length of the prefix, and whether it ended.
unfoldable pub shared_bits : ℕ → ℕ → ℕ → List Node → ℕ → ℕ × Bool
unfolding all_agree
shared_bits zero byte_idx byte others prefix_len = (prefix_len, false)
shared_bits (suc shift) byte_idx byte others prefix_len =
    if all_agree byte_idx shift (byte / 2 ^ shift % 2) others
    then shared_bits shift byte_idx byte others (prefix_len + 1)
    else (prefix_len, true)

unfoldable pub shared_bytes : Bytes → ℕ → List Node → ℕ → ℕ
unfolding shared_bits
shared_bytes [] byte_idx others prefix_len = prefix_len
shared_bytes (byte ∷ bytes) byte_idx others prefix_len =
    let r = shared_bits 8 byte_idx byte others prefix_len in
    if r.1 then r.0 else shared_bytes bytes (byte_idx + 1) others r.0

abbrev pub depth_of : List Node → ℕ
unfolding shared_bytes
depth_of [] = 0
depth_of (n ∷ []) = length n.id * 8
depth_of (n ∷ m ∷ l) = shared_bytes n.id 0 (m ∷ l) 0

unfoldable pub depth : KBucket → ℕ
depth b = depth_of b.nodes

unfoldable pub is_lonely : ℕ → KBucket → Bool
is_lonely now_secs b = ltb 3600 (now_secs - b.last_updated)

abbrev pub front : List Node → Option Node
front [] = none
front (n ∷ l) = some n

unfoldable pub head : KBucket → Option Node
head b = front b.nodes

abbrev pub is_nil : List Node → Bool
is_nil [] = true
is_nil (n ∷ l) = false

unfoldable pub has_replacement : KBucket → Bool
has_replacement b = not (is_nil b.replacement_nodes)

unfoldable pub covers : KBucket → ℕ → Bool
covers b long_id = leb b.lo long_id && leb long_id b.hi
