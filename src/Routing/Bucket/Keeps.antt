-- ===== src/Routing/Bucket/Keeps.antt =====
-- src/routing.rs: a split loses no contact.
use auth_kademlia_rs.Prelude.{
  ℕ, ◌+◌, ◌≤◌, ◌<◌, ◌≡◌, refl, sym, subst, ◌⊎◌, inl, inr, Bool, true, List, [], ◌∷◌, ◌++◌, arith,
  ltb, leb, Bool-cases, bytes_eq, length, any, remove_first, All, length-append,
}
use auth_kademlia_rs.Prelude.Unique.{bytes_eq→≡, bytes_eq_refl}
use auth_kademlia_rs.Node.{Node}
use auth_kademlia_rs.Routing.Bucket.{
  KBucket, new, same_id, contains, add_node, midpoint, distribute, split,
}
use auth_kademlia_rs.Routing.Bucket.Laws.{IsBucket, length-remove_first}

abbrev Holds : KBucket → Node → Type 0
Holds b n = contains b n ≡ true

any-append_left : (p : Node → Bool) (l r : List Node) → any p l ≡ true → any p (l ++ r) ≡ true
any-append_left p [] r e = absurd (cc)
any-append_left p (x ∷ l) r e = ground (arith, any-append_left p l r)

any-append_last :
    (p : Node → Bool) (l : List Node) (n : Node) → p n ≡ true → any p (l ++ n ∷ []) ≡ true
any-append_last p [] n e = rw e refl
any-append_last p (x ∷ l) n e = ground (arith, any-append_last p l n e)

any-refresh :
    (n m : Node) (l : List Node)
    → any (same_id m) l ≡ true
    → any (same_id m) (remove_first (same_id n) l ++ n ∷ []) ≡ true
any-refresh n m [] e = absurd (cc)
any-refresh n m (x ∷ l) e = elim (Bool-cases (same_id n x)) [
  | inl c ↦ elim (Bool-cases (same_id m x)) [
    | inl d ↦ rw c (
        any-append_last (same_id m) l n
          (subst (λ z. bytes_eq z m.id ≡ true) (bytes_eq→≡ x.id n.id c) d))
    | inr d ↦ rw c (any-append_left (same_id m) l (n ∷ []) (ground arith))
  ]
  | inr c ↦ elim (Bool-cases (same_id m x)) [
    | inl d ↦ rw (c, d) refl
    | inr d ↦ rw (c, d) (any-refresh n m l (ground arith))
  ]
]

add_node-keeps : (b : KBucket) (n m : Node) → Holds b m → Holds (add_node b n).1 m
unfolding add_node contains
add_node-keeps b n m e = elim (Bool-cases (contains b n)) [
  | inl c ↦ rw c (any-refresh n m b.nodes e)
  | inr c ↦ elim (Bool-cases (ltb (length b.nodes) b.ksize)) [
    | inl d ↦ rw (c, d) (any-append_left (same_id m) b.nodes (n ∷ []) e)
    | inr d ↦ rw (c, d) e
  ]
]

-- With room in the bucket, an addition is a contact.
add_node-adds :
    (b : KBucket) (n : Node)
    → length b.nodes < b.ksize
    → Holds (add_node b n).1 n
      × (length (add_node b n).1.nodes ≤ length b.nodes + 1)
      × ((add_node b n).1.ksize ≡ b.ksize)
unfolding add_node contains
add_node-adds b n p = elim (Bool-cases (contains b n)) [
  | inl c ↦ rw c (
    any-append_last (same_id n) (remove_first (same_id n) b.nodes) n (bytes_eq_refl n.id),
    omega (
      arith,
      length-append (remove_first (same_id n) b.nodes) (n ∷ []),
      length-remove_first n b.nodes c,
    ),
    refl,
  )
  | inr c ↦
      let d : ltb (length b.nodes) b.ksize ≡ true = ground arith in
      rw (c, d)
        (
          any-append_last (same_id n) b.nodes n (bytes_eq_refl n.id),
          omega (arith, length-append b.nodes (n ∷ [])),
          refl,
        )
]

-- In one of the two buckets.
abbrev pub HoldsEither : KBucket × KBucket → Node → Type 0
HoldsEither r n = (contains r.0 n ≡ true) ⊎ (contains r.1 n ≡ true)

distribute-keeps :
    (mid : ℕ) (l : List Node) (low high : KBucket) (m : Node)
    → HoldsEither (low, high) m
    → HoldsEither (distribute mid l low high) m
unfolding distribute
distribute-keeps mid [] low high m e = e
distribute-keeps mid (n ∷ l) low high m e = elim (Bool-cases (leb n.long_id mid)) [
  | inl c ↦ rw c (
      distribute-keeps mid l (add_node low n).1 high m
        (elim e [ inl a ↦ inl (add_node-keeps low n m a) | inr a ↦ inr a ]))
  | inr c ↦ rw c (
      distribute-keeps mid l low (add_node high n).1 m
        (elim e [ inl a ↦ inl a | inr a ↦ inr (add_node-keeps high n m a) ]))
]

distribute-holds :
    (mid : ℕ) (l r : List Node) (low high : KBucket)
    → length low.nodes + length l ≤ low.ksize
    → length high.nodes + length l ≤ high.ksize
    → All (HoldsEither (distribute mid (l ++ r) low high)) l
unfolding distribute
distribute-holds mid [] r low high p q = tt
distribute-holds mid (n ∷ l) r low high p q = elim (Bool-cases (leb n.long_id mid)) [
  | inl c ↦
      let a = add_node-adds low n (omega (arith, p)) in
      let e : distribute mid (n ∷ l ++ r) low high
          ≡ distribute mid (l ++ r) (add_node low n).1 high =
        rw c refl in
      subst (λ z. All (HoldsEither z) (n ∷ l)) (sym e)
        (
          distribute-keeps mid (l ++ r) (add_node low n).1 high n (inl a.0),
          distribute-holds mid l r (add_node low n).1 high (omega (arith, p, a.1, a.2))
              (omega (arith, q)),
        )
  | inr c ↦
      let a = add_node-adds high n (omega (arith, q)) in
      let e : distribute mid (n ∷ l ++ r) low high
          ≡ distribute mid (l ++ r) low (add_node high n).1 =
        rw c refl in
      subst (λ z. All (HoldsEither z) (n ∷ l)) (sym e)
        (
          distribute-keeps mid (l ++ r) low (add_node high n).1 n (inr a.0),
          distribute-holds mid l r low (add_node high n).1 (omega (arith, p))
              (omega (arith, q, a.1, a.2)),
        )
]

-- Each contact of a well-formed bucket is a contact of one of the two halves, and no replacement
-- takes its place.
pub split-HoldsEither :
    (now_secs k : ℕ) (b : KBucket) → IsBucket k b → All (HoldsEither (split now_secs b)) b.nodes
unfolding split new
split-HoldsEither now_secs k b i =
    distribute-holds (midpoint b) b.nodes b.replacement_nodes
      (new now_secs b.lo (midpoint b) b.ksize) (new now_secs (midpoint b + 1) b.hi b.ksize)
      (omega (arith, i.nodes-size, i.ksize)) (omega (arith, i.nodes-size, i.ksize))
