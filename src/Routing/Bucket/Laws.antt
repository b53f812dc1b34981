-- ===== src/Routing/Bucket/Laws.antt =====
-- src/routing.rs: what a bucket keeps. It holds at most `ksize` contacts and five times as many
-- replacements, all from its range; no id stands twice; and there are replacements only while the
-- bucket is full.
use auth_kademlia_rs.Prelude.{
  ℕ, suc, ◌+◌, ◌*◌, ◌≤◌, ◌<◌, max, ◌≡◌, refl, sym, subst, ◌∙◌, ◌≢◌, ◌⊎◌, inl, inr, true, false,
  List, [], ◌∷◌, ◌++◌, arith, ltb, Bool-cases, Bytes, AreBytes, bytes_eq, length, any, remove_first,
  All, length-append, All-append, All-remove_first,
}
use auth_kademlia_rs.Prelude.Unique.{
  IsUnique, IsUnique-snoc, IsUnique-remove_first, any-false-All, remove_first-All_ne, bytes_eq→≡,
}
use auth_kademlia_rs.Node.{Node, id_len}
use auth_kademlia_rs.Node.Heap.Laws.{IsNode}
use auth_kademlia_rs.Routing.Bucket.{
  KBucket, new, with_nodes, same_id, contains, cap, add_node, pop_back,
}

abbrev pub id_of : Node → Bytes
id_of n = n.id

-- A peer whose id is `id_len` bytes, and whose number is the one that the id spells.
abbrev pub IsPeer : Node → Type 0
IsPeer n = IsNode n × AreBytes n.id × (length n.id ≡ id_len)

abbrev pub IsIn : ℕ → ℕ → Node → Type 0
IsIn lo hi n = IsPeer n × (lo ≤ n.long_id) × (n.long_id ≤ hi)

-- No id of `l` is an id of `r`.
abbrev pub AreApart : List Node → List Node → Type 0
AreApart l r = All (λ n. All (λ m. m.id ≢ n.id) l) r

pub record IsBucket (k : ℕ) (b : KBucket) : Type 0 where
  pub ksize : b.ksize ≡ k
  pub max_replacement_nodes : b.max_replacement_nodes ≡ k * 5
  pub nodes-size : length b.nodes ≤ k
  pub replacements-size : length b.replacement_nodes ≤ k * 5
  pub full : (b.replacement_nodes ≡ []) ⊎ (length b.nodes ≡ k)
  pub nodes-unique : IsUnique id_of b.nodes
  pub replacements-unique : IsUnique id_of b.replacement_nodes
  pub apart : AreApart b.nodes b.replacement_nodes
  pub nodes-in : All (IsIn b.lo b.hi) b.nodes
  pub replacements-in : All (IsIn b.lo b.hi) b.replacement_nodes

pub new-IsBucket : (now_secs lo hi k : ℕ) → IsBucket k (new now_secs lo hi k)
unfolding new
new-IsBucket now_secs lo hi k = record {
  ksize = refl;
  max_replacement_nodes = refl;
  nodes-size = omega arith;
  replacements-size = omega arith;
  full = inl refl;
  nodes-unique = tt;
  replacements-unique = tt;
  apart = tt;
  nodes-in = tt;
  replacements-in = tt;
}

module _ (P : Node → Type 0) where
  pub All-cap : (max : ℕ) (l : List Node) → All P l → All P (cap max l)
  unfolding cap
  All-cap max [] h = tt
  All-cap max (x ∷ l) h = elim (Bool-cases (ltb max (suc (length l)))) [
    | inl e ↦ rw e (All-cap max l h.1)
    | inr e ↦ rw e h
  ]

  pub any-true_All :
      (node : Node) (l : List Node)
      → any (same_id node) l ≡ true
      → ((n : Node) → n.id ≡ node.id → P n → P node)
      → All P l
      → P node
  any-true_All node [] e f h = absurd (cc)
  any-true_All node (x ∷ l) e f h = elim (Bool-cases (bytes_eq x.id node.id)) [
    | inl c ↦ f x (bytes_eq→≡ x.id node.id c) h.0
    | inr c ↦ any-true_All node l (ground arith) f h.1
  ]

  pub pop_back-All : (l : List Node) → All P l → All P (pop_back l).0 × All P (pop_back l).1
  unfolding pop_back
  pop_back-All [] h = (tt, tt)
  pop_back-All (x ∷ []) h = (tt, h)
  pop_back-All (x ∷ y ∷ l) h = let r = pop_back-All (y ∷ l) h.1 in ((h.0, r.0), r.1)

cap-IsUnique : (max : ℕ) (l : List Node) → IsUnique id_of l → IsUnique id_of (cap max l)
unfolding cap
cap-IsUnique max [] u = tt
cap-IsUnique max (x ∷ l) u = elim (Bool-cases (ltb max (suc (length l)))) [
  | inl e ↦ rw e (cap-IsUnique max l u.1)
  | inr e ↦ rw e u
]

length-cap-le : (max : ℕ) (l : List Node) → length (cap max l) ≤ max
unfolding cap
length-cap-le max [] = omega arith
length-cap-le max (x ∷ l) = elim (Bool-cases (ltb max (suc (length l)))) [
  | inl e ↦ rw e (length-cap-le max l)
  | inr e ↦ rw e (ground arith)
]

pub length-remove_first :
    (node : Node) (l : List Node)
    → any (same_id node) l ≡ true
    → length (remove_first (same_id node) l) + 1 ≡ length l
length-remove_first node [] e = absurd (cc)
length-remove_first node (x ∷ l) e = elim (Bool-cases (bytes_eq x.id node.id)) [
  | inl c ↦ rw c (omega arith)
  | inr c ↦ rw c (omega (arith, length-remove_first node l (ground arith)))
]

pub All-imp : {P Q : Node → Type 0} → ((n : Node) → P n → Q n) → (l : List Node) → All P l → All Q l
All-imp f [] h = tt
All-imp f (x ∷ l) h = (f x h.0, All-imp f l h.1)

-- The three branches of an addition.
refresh-IsBucket :
    (k : ℕ) (b : KBucket) (node : Node)
    → IsBucket k b
    → IsIn b.lo b.hi node
    → contains b node ≡ true
    → IsBucket k
        (with_nodes b (remove_first (same_id node) b.nodes ++ node ∷ []) b.replacement_nodes)
unfolding contains
refresh-IsBucket k b node i w e =
    let s : length (remove_first (same_id node) b.nodes ++ node ∷ []) ≡ length b.nodes = omega (
      arith,
      length-append (remove_first (same_id node) b.nodes) (node ∷ []),
      length-remove_first node b.nodes e,
    ) in
    record {
      ksize = i.ksize;
      max_replacement_nodes = i.max_replacement_nodes;
      nodes-size = omega (arith, s, i.nodes-size);
      replacements-size = i.replacements-size;
      full = elim i.full [ inl n ↦ inl n | inr n ↦ inr (omega (arith, s, n)) ];
      nodes-unique =
          IsUnique-snoc id_of _ node
            (IsUnique-remove_first id_of (same_id node) b.nodes i.nodes-unique)
            (remove_first-All_ne id_of node.id b.nodes i.nodes-unique);
      replacements-unique = i.replacements-unique;
      apart =
          All-imp
            (λ r h.
              All-append (λ m. m.id ≢ r.id) (remove_first (same_id node) b.nodes) (node ∷ [])
                (All-remove_first (λ m. m.id ≢ r.id) (same_id node) b.nodes h)
                (any-true_All (λ m. m.id ≢ r.id) node b.nodes e (λ n q h. λ p. h (q ∙ p)) h, tt))
            b.replacement_nodes i.apart;
      nodes-in =
          All-append (IsIn b.lo b.hi) (remove_first (same_id node) b.nodes) (node ∷ [])
            (All-remove_first (IsIn b.lo b.hi) (same_id node) b.nodes i.nodes-in) (w, tt);
      replacements-in = i.replacements-in;
    }

append-IsBucket :
    (k : ℕ) (b : KBucket) (node : Node)
    → IsBucket k b
    → IsIn b.lo b.hi node
    → contains b node ≡ false
    → length b.nodes < k
    → IsBucket k (with_nodes b (b.nodes ++ node ∷ []) b.replacement_nodes)
unfolding contains
append-IsBucket k b node i w e f =
    let s : length (b.nodes ++ node ∷ []) ≡ length b.nodes + 1 =
      length-append b.nodes (node ∷ []) in
    let n : b.replacement_nodes ≡ [] = elim i.full [ inl n ↦ n | inr q ↦ absurd (omega arith) ] in
    record {
      ksize = i.ksize;
      max_replacement_nodes = i.max_replacement_nodes;
      nodes-size = omega (arith, s);
      replacements-size = i.replacements-size;
      full = inl n;
      nodes-unique =
          IsUnique-snoc id_of b.nodes node i.nodes-unique (any-false-All id_of node.id b.nodes e);
      replacements-unique = i.replacements-unique;
      apart = subst (AreApart (b.nodes ++ node ∷ [])) (sym n) tt;
      nodes-in = All-append (IsIn b.lo b.hi) b.nodes (node ∷ []) i.nodes-in (w, tt);
      replacements-in = i.replacements-in;
    }

replace-IsBucket :
    (k : ℕ) (b : KBucket) (node : Node)
    → IsBucket k b
    → IsIn b.lo b.hi node
    → contains b node ≡ false
    → k ≤ length b.nodes
    → IsBucket k (
        with_nodes b b.nodes (
          cap b.max_replacement_nodes
            (remove_first (same_id node) b.replacement_nodes ++ node ∷ [])))
unfolding contains
replace-IsBucket k b node i w e f =
    let m = b.max_replacement_nodes in
    let kept = remove_first (same_id node) b.replacement_nodes in
    record {
      ksize = i.ksize;
      max_replacement_nodes = i.max_replacement_nodes;
      nodes-size = i.nodes-size;
      replacements-size =
          omega (arith, length-cap-le m (kept ++ node ∷ []), i.max_replacement_nodes);
      full = inr (omega (arith, i.nodes-size));
      nodes-unique = i.nodes-unique;
      replacements-unique = cap-IsUnique m _ (
          IsUnique-snoc id_of _ node
            (IsUnique-remove_first id_of (same_id node) b.replacement_nodes i.replacements-unique)
            (remove_first-All_ne id_of node.id b.replacement_nodes i.replacements-unique));
      apart =
          All-cap (λ n. All (λ m. m.id ≢ n.id) b.nodes) m _
            (All-append (λ n. All (λ m. m.id ≢ n.id) b.nodes) kept (node ∷ [])
              (All-remove_first (λ n. All (λ m. m.id ≢ n.id) b.nodes) (same_id node)
                b.replacement_nodes i.apart)
              (any-false-All id_of node.id b.nodes e, tt));
      nodes-in = i.nodes-in;
      replacements-in = All-cap (IsIn b.lo b.hi) m _ (
          All-append (IsIn b.lo b.hi) kept (node ∷ [])
            (All-remove_first (IsIn b.lo b.hi) (same_id node) b.replacement_nodes i.replacements-in)
            (w, tt));
    }

-- Adding a peer of the bucket's range keeps the bucket well formed, whichever branch is taken: at
-- most `ksize` contacts and five times as many replacements, all in the range, no id twice among
-- both, and replacements only while the bucket is full.
pub add_node-IsBucket :
    (k : ℕ) (b : KBucket) (node : Node)
    → IsBucket k b
    → IsIn b.lo b.hi node
    → IsBucket k (add_node b node).1
unfolding add_node
add_node-IsBucket k b node i w = elim (Bool-cases (contains b node)) [
  | inl e ↦ rw e (refresh-IsBucket k b node i w e)
  | inr e ↦ elim (Bool-cases (ltb (length b.nodes) b.ksize)) [
    | inl f ↦ rw (e, f) (append-IsBucket k b node i w e (ground (arith, i.ksize)))
    | inr f ↦ rw (e, f) (replace-IsBucket k b node i w e (ground (arith, i.ksize)))
  ]
]
