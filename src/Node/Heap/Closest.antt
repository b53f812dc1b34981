-- ===== src/Node/Heap/Closest.antt =====
-- src/node.rs: which peers a push keeps.
use auth_kademlia_rs.Prelude.{
  ℕ, zero, suc, ◌≤◌, ◌≡◌, refl, subst, ◌∙◌, ◌⊎◌, inl, inr, Bool, true, false, not, ◌||◌, List, [],
  ◌∷◌, arith, Bool-cases, bytes_eq, length, take, any, All,
}
use auth_kademlia_rs.Prelude.Sort.{insert_by, sort_by_key, IsSorted, sort_by_key-IsSorted}
use auth_kademlia_rs.Prelude.Unique.{bytes_eq→≡, sort_by_key-All}
use auth_kademlia_rs.Node.{Node, distance_to}
use auth_kademlia_rs.Node.Heap.{
  HeapEntry, NodeHeap, entry_id, contains, push_node, push_each, trim, push,
}
use auth_kademlia_rs.Node.Heap.Laws.{
  IsNode, IsEntry, IsFilled, IsHeap, IsIn, push_each-IsFilled, push_node-adds, push_node-keeps,
}

abbrev distance : HeapEntry → ℕ
distance e = e.distance

-- The heap is full, and all that it holds is at least as close to the pivot as `n`.
abbrev pub IsFarther : NodeHeap → Node → Type 0
IsFarther h n =
    (h.maxsize ≤ length h.entries) × All (λ e. e.distance ≤ distance_to h.node n) h.entries

distance_same :
    (p : Node) (e : HeapEntry) (n : Node)
    → IsEntry p e
    → IsNode n
    → bytes_eq (entry_id e) n.id ≡ true
    → e.distance ≡ distance_to p n
unfolding distance_to
distance_same p e n i w q = i.0 ∙ rw (i.1, w, bytes_eq→≡ (entry_id e) n.id q) refl

least-le :
    (a : ℕ) (p : Node) (l : List HeapEntry) (n : Node)
    → IsNode n
    → All (IsEntry p) l
    → All (λ y. a ≤ y.distance) l
    → IsIn l n
    → a ≤ distance_to p n
least-le a p [] n w i h q = absurd (cc)
least-le a p (e ∷ l) n w i h q = elim (Bool-cases (bytes_eq (entry_id e) n.id)) [
  | inl c ↦ omega (arith, h.0, distance_same p e n i.0 w c)
  | inr c ↦ least-le a p l n w i.1 h.1 (ground arith)
]

take_or_closer :
    (k : ℕ) (p : Node) (l : List HeapEntry) (n : Node)
    → IsNode n
    → All (IsEntry p) l
    → IsSorted distance l
    → IsIn l n
    → IsIn (take k l) n
      ⊎ ((k ≤ length (take k l)) × All (λ e. e.distance ≤ distance_to p n) (take k l))
take_or_closer zero p l n w i s q = inr (omega arith, tt)
take_or_closer (suc k) p [] n w i s q = absurd (cc)
take_or_closer (suc k) p (e ∷ l) n w i s q = elim (Bool-cases (bytes_eq (entry_id e) n.id)) [
  | inl c ↦ inl (rw c refl)
  | inr c ↦
      let m : IsIn l n = ground arith in
      elim (take_or_closer k p l n w i.1 s.1 m) [
        | inl a ↦ inl (rw c a)
        | inr b ↦ inr (omega (arith, b.0), (least-le e.distance p l n w i.1 s.0 m, b.1))
      ]
]

insert_by-IsIn_new :
    (e : HeapEntry) (l : List HeapEntry) (n : Node)
    → bytes_eq (entry_id e) n.id ≡ true
    → IsIn (insert_by distance e l) n
unfolding insert_by
insert_by-IsIn_new e [] n c = rw c refl
insert_by-IsIn_new e (x ∷ l) n c = ground (arith, insert_by-IsIn_new e l n c)

insert_by-IsIn :
    (e : HeapEntry) (l : List HeapEntry) (n : Node) → IsIn l n → IsIn (insert_by distance e l) n
unfolding insert_by
insert_by-IsIn e [] n q = absurd (cc)
insert_by-IsIn e (x ∷ l) n q = ground (arith, insert_by-IsIn e l n)

sort_by_key-IsIn : (l : List HeapEntry) (n : Node) → IsIn l n → IsIn (sort_by_key distance l) n
unfolding sort_by_key
sort_by_key-IsIn [] n q = absurd (cc)
sort_by_key-IsIn (e ∷ l) n q = elim (Bool-cases (bytes_eq (entry_id e) n.id)) [
  | inl c ↦ insert_by-IsIn_new e (sort_by_key distance l) n c
  | inr c ↦ insert_by-IsIn e (sort_by_key distance l) n (sort_by_key-IsIn l n (ground arith))
]

push_each-keeps :
    (h : NodeHeap) (b : Bool) (nodes : List Node) (n : Node)
    → IsIn h.entries n
    → IsIn (push_each h b nodes).0.entries n
unfolding push_each
push_each-keeps h b [] n q = q
push_each-keeps h b (m ∷ nodes) n q =
    push_each-keeps (push_node h m) (b || not (contains h m)) nodes n (push_node-keeps h m n q)

push_each-adds :
    (h : NodeHeap) (b : Bool) (nodes : List Node) → All (IsIn (push_each h b nodes).0.entries) nodes
unfolding push_each
push_each-adds h b [] = tt
push_each-adds h b (m ∷ nodes) = (
  push_each-keeps (push_node h m) (b || not (contains h m)) nodes m (push_node-adds h m),
  push_each-adds (push_node h m) (b || not (contains h m)) nodes,
)

IsIn-batch :
    (l : List HeapEntry) (nodes : List Node) (n : Node)
    → All (IsIn l) nodes
    → any (λ m. bytes_eq m.id n.id) nodes ≡ true
    → IsIn l n
IsIn-batch l [] n a q = absurd (cc)
IsIn-batch l (m ∷ nodes) n a q = elim (Bool-cases (bytes_eq m.id n.id)) [
  | inl c ↦ subst (λ i. any (λ e. bytes_eq (entry_id e) i) l ≡ true) (bytes_eq→≡ m.id n.id c) a.0
  | inr c ↦ IsIn-batch l nodes n a.1 (ground arith)
]

trim-closest :
    (h : NodeHeap) (n : Node)
    → IsNode n
    → IsFilled h
    → IsIn h.entries n
    → IsIn (trim h).entries n ⊎ IsFarther (trim h) n
unfolding trim
trim-closest h n w i q =
    take_or_closer h.maxsize h.node (sort_by_key distance h.entries) n w
      (sort_by_key-All entry_id distance (IsEntry h.node) h.entries i.0)
      (sort_by_key-IsSorted distance h.entries) (sort_by_key-IsIn h.entries n q)

-- A peer that the heap held or that the batch brings is in the heap after the push, unless the heap
-- is then full and everything in it is at least as close to the pivot.
pub push-closest :
    (h : NodeHeap) (nodes : List Node) (n : Node)
    → All IsNode nodes
    → IsHeap h
    → IsNode n
    → IsIn h.entries n ⊎ (any (λ m. bytes_eq m.id n.id) nodes ≡ true)
    → IsIn (push h nodes).entries n ⊎ IsFarther (push h nodes) n
unfolding push
push-closest h nodes n w i v q =
    let m : IsIn (push_each h false nodes).0.entries n = elim q [
      | inl a ↦ push_each-keeps h false nodes n a
      | inr a ↦ IsIn-batch _ nodes n (push_each-adds h false nodes) a
    ] in
    elim (Bool-cases (push_each h false nodes).1) [
      | inl e ↦
          rw e (
            trim-closest (push_each h false nodes).0 n v (push_each-IsFilled h false nodes w i.0) m)
      | inr e ↦ rw e (inl m)
    ]
