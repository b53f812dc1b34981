-- ===== src/Routing/Bucket/Split.antt =====
-- src/routing.rs: the two halves of a bucket. They are buckets for the two halves of the range.
use auth_kademlia_rs.Prelude.{
  ℕ, ◌+◌, ◌≡◌, refl, sym, subst, ◌∙◌, inl, inr, List, [], ◌∷◌, ◌++◌, arith, ltb, leb, Bool-cases,
  length, All, All-append,
}
use auth_kademlia_rs.Node.{Node}
use auth_kademlia_rs.Routing.Bucket.{KBucket, new, contains, add_node, midpoint, distribute, split}
use auth_kademlia_rs.Routing.Bucket.Laws.{IsIn, IsBucket, new-IsBucket, add_node-IsBucket}

-- An addition leaves the range alone.
pub add_node_range :
    (b : KBucket) (n : Node) → ((add_node b n).1.lo ≡ b.lo) × ((add_node b n).1.hi ≡ b.hi)
unfolding add_node
add_node_range b n = elim (Bool-cases (contains b n)) [
  | inl e ↦ rw e (refl, refl)
  | inr e ↦ elim (Bool-cases (ltb (length b.nodes) b.ksize)) [
    | inl f ↦ rw (e, f) (refl, refl)
    | inr f ↦ rw (e, f) (refl, refl)
  ]
]

abbrev pub IsRange : ℕ → ℕ → KBucket → Type 0
IsRange lo hi b = (b.lo ≡ lo) × (b.hi ≡ hi)

-- A bucket of the range from `lo` to `hi`.
abbrev pub IsHalf : ℕ → ℕ → ℕ → KBucket → Type 0
IsHalf k lo hi b = IsBucket k b × IsRange lo hi b

add_node-IsHalf :
    (k lo hi : ℕ) (b : KBucket) (n : Node)
    → IsHalf k lo hi b
    → IsIn lo hi n
    → IsHalf k lo hi (add_node b n).1
add_node-IsHalf k lo hi b n h w =
    let r = add_node_range b n in
    let v : IsIn b.lo b.hi n = (w.0, omega (arith, h.1.0, w.1), omega (arith, h.1.1, w.2)) in
    (add_node-IsBucket k b n h.0 v, (r.0 ∙ h.1.0, r.1 ∙ h.1.1))

distribute-IsHalf :
    (k lo mid hi : ℕ) (l : List Node) (low high : KBucket)
    → All (IsIn lo hi) l
    → IsHalf k lo mid low
    → IsHalf k (mid + 1) hi high
    → IsHalf k lo mid (distribute mid l low high).0
      × IsHalf k (mid + 1) hi (distribute mid l low high).1
unfolding distribute
distribute-IsHalf k lo mid hi [] low high w p q = (p, q)
distribute-IsHalf k lo mid hi (n ∷ l) low high w p q = elim (Bool-cases (leb n.long_id mid)) [
  | inl e ↦ rw e (
      distribute-IsHalf k lo mid hi l (add_node low n).1 high w.1
        (add_node-IsHalf k lo mid low n p (w.0.0, w.0.1, ground arith)) q)
  | inr e ↦ rw e (
      distribute-IsHalf k lo mid hi l low (add_node high n).1 w.1 p
        (add_node-IsHalf k (mid + 1) hi high n q (w.0.0, ground arith, w.0.2)))
]

-- The halves of a well-formed bucket are well formed, and their ranges are the bucket's range up to
-- its midpoint and from the next id on.
pub split-IsBucket :
    (now_secs k : ℕ) (b : KBucket)
    → IsBucket k b
    → IsHalf k b.lo (midpoint b) (split now_secs b).0
      × IsHalf k (midpoint b + 1) b.hi (split now_secs b).1
unfolding split new
split-IsBucket now_secs k b i =
    distribute-IsHalf k b.lo (midpoint b) b.hi (b.nodes ++ b.replacement_nodes) _ _
      (All-append (IsIn b.lo b.hi) b.nodes b.replacement_nodes i.nodes-in i.replacements-in)
      (
        subst (λ j. IsBucket k (new now_secs b.lo (midpoint b) j)) (sym i.ksize)
            (new-IsBucket now_secs b.lo (midpoint b) k),
        (refl, refl),
      )
      (
        subst (λ j. IsBucket k (new now_secs (midpoint b + 1) b.hi j)) (sym i.ksize)
            (new-IsBucket now_secs (midpoint b + 1) b.hi k),
        (refl, refl),
      )
