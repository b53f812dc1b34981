-- ===== src/Routing/Table/Insert.antt =====
-- src/routing.rs: every change of the table keeps it well formed, and `insert` ends.
use mathlib.Core.Option.{some-injective}
use auth_kademlia_rs.Prelude.{
  ℕ, zero, suc, ◌+◌, ◌-◌, ◌≤◌, ◌<◌, ◌≡◌, refl, sym, ap, subst, ◌∙◌, ◌≢◌, inl, inr, Bool, false,
  ◌||◌, some, List, [], ◌∷◌, arith, ltb, Bool-cases, Option-cases, length, get_elem?, set, find,
  All,
}
use auth_kademlia_rs.Prelude.Unique.{any-false-All}
use auth_kademlia_rs.Node.{Node, id_to_u256}
use auth_kademlia_rs.Node.Distance.{from_big_endian_injective}
use auth_kademlia_rs.Routing.Bucket.{KBucket, contains, add_node, remove_node}
use auth_kademlia_rs.Routing.Bucket.Laws.{id_of, IsPeer, IsIn, IsBucket, add_node-IsBucket}
use auth_kademlia_rs.Routing.Bucket.Replacements.{remove_node-IsBucket}
use auth_kademlia_rs.Routing.Bucket.Split.{add_node_range, IsRange}
use auth_kademlia_rs.Routing.Table.{
  RoutingTable, with_buckets, last_id, bucket_index_for, health_remove, remove_contact, is_stale,
  replace_stale_if_full, make_room, add_at, insert_step, unwrap_or,
}
use auth_kademlia_rs.Routing.Table.Partition.{
  IsChain, Contains, index_from-IsChain, get_elem?-IsChain, set-IsChain, All-get_elem?, All-set,
  get_elem?-set-IsRange,
}

-- The buckets divide the 160-bit ids among them, and each keeps what a bucket keeps.
pub record IsTable (t : RoutingTable) : Type 0 where
  pub positive : 1 ≤ t.ksize
  pub chain : IsChain 0 last_id t.buckets
  pub buckets : All (IsBucket t.ksize) t.buckets

-- A bucket that holds `x` covers at most `w` ids.
abbrev pub IsNarrow : ℕ → ℕ → List KBucket → Type 0
IsNarrow x w l = All (λ b. Contains b x → b.hi < b.lo + w) l

-- `u` is well formed, and its buckets have the ranges of those of `t`.
pub record IsKept (t u : RoutingTable) : Type 0 where
  pub table : IsTable u
  pub ksize : u.ksize ≡ t.ksize
  pub narrow : (x w : ℕ) → IsNarrow x w t.buckets → IsNarrow x w u.buckets
  pub reach :
      (i : ℕ) (a : KBucket)
      → get_elem? t.buckets i ≡ some a
      → (c : KBucket) × (get_elem? u.buckets i ≡ some c) × IsRange a.lo a.hi c

-- The bucket of an id, by the index that the code computes.
pub bucket_index_for-IsTable :
    (t : RoutingTable) (x : ℕ)
    → IsTable t
    → x ≤ last_id
    → (b : KBucket) × (get_elem? t.buckets (bucket_index_for t x) ≡ some b) × Contains b x
unfolding bucket_index_for
bucket_index_for-IsTable t x i p =
    let (j, b, e, f, c) = index_from-IsChain 0 0 last_id x t.buckets i.chain (omega arith) p in
    (
      b,
      subst (λ k. get_elem? t.buckets (unwrap_or k (length t.buckets - 1)) ≡ some b)
          (sym (e ∙ ap some (omega arith))) f,
      c,
    )

-- A bucket gives way to one of the same range.
pub set-IsKept :
    (t : RoutingTable) (j : ℕ) (b d : KBucket) (health : _)
    → IsTable t
    → get_elem? t.buckets j ≡ some b
    → IsRange b.lo b.hi d
    → IsBucket t.ksize d
    → IsKept t (with_buckets t (set t.buckets j d) health)
set-IsKept t j b d health i e r v = record {
  table = record {
    positive = i.positive;
    chain = set-IsChain 0 last_id j t.buckets b d i.chain e r;
    buckets = All-set (IsBucket t.ksize) t.buckets j d i.buckets v;
  };
  ksize = refl;
  narrow = λ x w n.
      All-set (λ b. Contains b x → b.hi < b.lo + w) t.buckets j d n
        (λ c. omega (
          arith,
          r.0,
          r.1,
          All-get_elem? (λ b. Contains b x → b.hi < b.lo + w) t.buckets j b n e
              (omega (arith, r.0, c.0), omega (arith, r.1, c.1)),
        ));
  reach = λ k a f. get_elem?-set-IsRange t.buckets k j a b d f e r;
}

pub remove_node-IsRange : (b : KBucket) (n : Node) → IsRange b.lo b.hi (remove_node b n)
unfolding remove_node
remove_node-IsRange b n = elim (Bool-cases (contains b n)) [
  | inl e ↦ rw e (refl, refl)
  | inr e ↦ rw e (refl, refl)
]

-- A removal finds its bucket, and keeps the table.
pub remove_contact-IsKept :
    (t : RoutingTable) (node : Node)
    → IsTable t
    → node.long_id ≤ last_id
    → (u : RoutingTable) × (remove_contact t node ≡ some u) × IsKept t u
unfolding remove_contact
remove_contact-IsKept t node i p =
    let (b, e, c) = bucket_index_for-IsTable t node.long_id i p in
    let j = bucket_index_for t node.long_id in
    (
      with_buckets t (set t.buckets j (remove_node b node)) (health_remove t.health node.id),
      rw e refl,
      set-IsKept t j b (remove_node b node) (health_remove t.health node.id) i e
          (remove_node-IsRange b node)
          (remove_node-IsBucket t.ksize b node
            (All-get_elem? (IsBucket t.ksize) t.buckets j b i.buckets e)),
    )

same-IsKept : (t : RoutingTable) → IsTable t → IsKept t t
same-IsKept t i = record {
  table = i;
  ksize = refl;
  narrow = λ x w n. n;
  reach = λ i a e. (a, e, (refl, refl));
}

pub find-All :
    (P : Node → Type 0) (p : Node → Bool) (l : List Node) (n : Node)
    → All P l
    → find p l ≡ some n
    → P n
find-All P p [] n h e = absurd (cc)
find-All P p (x ∷ l) n h e = elim (Bool-cases (p x)) [
  | inl c ↦ subst P (some-injective x n (ground arith)) h.0
  | inr c ↦ find-All P p l n h.1 (ground arith)
]

IsRange-trans : (a b c : KBucket) → IsRange a.lo a.hi b → IsRange b.lo b.hi c → IsRange a.lo a.hi c
IsRange-trans a b c p q = (q.0 ∙ p.0, q.1 ∙ p.1)

IsKept-trans : (t u v : RoutingTable) → IsKept t u → IsKept u v → IsKept t v
IsKept-trans t u v p q = record {
  table = q.table;
  ksize = q.ksize ∙ p.ksize;
  narrow = λ x w n. q.narrow x w (p.narrow x w n);
  reach = λ i a e.
      let (b, f, r) = p.reach i a e in
      let (c, g, s) = q.reach i b f in (c, g, IsRange-trans a b c r s);
}

get_elem?-set :
    (l : List KBucket) (i : ℕ) (b d : KBucket)
    → get_elem? l i ≡ some b
    → get_elem? (set l i d) i ≡ some d
get_elem?-set [] i b d e = absurd (cc)
get_elem?-set (x ∷ l) zero b d e = refl
get_elem?-set (x ∷ l) (suc i) b d e = get_elem?-set l i b d e

-- Making room keeps the table.
replace_stale_if_full-IsKept :
    (t : RoutingTable) (idx : ℕ) (b : KBucket) (node : Node)
    → IsTable t
    → get_elem? t.buckets idx ≡ some b
    → (u : RoutingTable) × (replace_stale_if_full t idx node ≡ some u) × IsKept t u
unfolding replace_stale_if_full make_room
replace_stale_if_full-IsKept t idx b node i e =
    elim (Bool-cases (ltb (length b.nodes) t.ksize || contains b node)) [
      | inl f ↦ (t, rw (e, f) refl, same-IsKept t i)
      | inr f ↦ elim (Option-cases (find (λ n. is_stale t n.id) b.nodes)) [
        | inl g ↦ (t, rw (e, f, g) refl, same-IsKept t i)
        | inr (n, g) ↦
            let v = All-get_elem? (IsBucket t.ksize) t.buckets idx b i.buckets e in
            let w = find-All (IsIn b.lo b.hi) (λ n. is_stale t n.id) b.nodes n v.nodes-in g in
            let (u, q, k) =
              remove_contact-IsKept t n i
                (omega (arith, w.2, get_elem?-IsChain 0 last_id idx t.buckets b i.chain e)) in
            let h : replace_stale_if_full t idx node ≡ remove_contact t n = rw (e, f, g) refl in
            (u, h ∙ q, k)
      ]
    ]

-- Two peers with one number have one id.
peer_injective : (a b : Node) → IsPeer a → IsPeer b → a.long_id ≡ b.long_id → a.id ≡ b.id
unfolding id_to_u256
peer_injective a b p q e =
    (from_big_endian_injective a.id b.id 0 0 p.1 q.1 (p.2 ∙ sym q.2) (sym p.0 ∙ e ∙ q.0)).1

-- A refused addition leaves a bucket that can be halved.
refused :
    (b : KBucket) (node : Node)
    → (add_node b node).0 ≡ false
    → (contains b node ≡ false) × (b.ksize ≤ length b.nodes)
unfolding add_node
refused b node e = elim (Bool-cases (contains b node)) [
  | inl c ↦ absurd (ground arith)
  | inr c ↦ elim (Bool-cases (ltb (length b.nodes) b.ksize)) [
    | inl d ↦ absurd (ground arith)
    | inr d ↦ (c, ground arith)
  ]
]

stranger-wide :
    (lo hi : ℕ) (l : List Node) (node : Node)
    → 1 ≤ length l
    → All (IsIn lo hi) l
    → IsIn lo hi node
    → All (λ n. n.id ≢ node.id) l
    → lo < hi
stranger-wide lo hi [] node p i w a = absurd (omega arith)
stranger-wide lo hi (n ∷ l) node p i w a =
    let d : n.long_id ≢ node.long_id = λ e. a.0 (peer_injective n node i.0.0 w.0 e) in
    omega (arith, d, i.0.1, i.0.2, w.1, w.2)

refused-wide :
    (k : ℕ) (b : KBucket) (node : Node)
    → 1 ≤ k
    → IsBucket k b
    → IsIn b.lo b.hi node
    → (add_node b node).0 ≡ false
    → b.lo < b.hi
unfolding contains
refused-wide k b node p i w e =
    let r = refused b node e in
    stranger-wide b.lo b.hi b.nodes node (omega (arith, p, r.1, i.ksize)) i.nodes-in w
      (any-false-All id_of node.id b.nodes r.0)

-- What `insert` finds when it has tried to add: a well-formed table, the bucket of the peer, and,
-- if the peer was refused, a bucket that can be halved.
pub record IsTried (t : RoutingTable) (x : ℕ) (r : Bool × KBucket × ℕ × RoutingTable) : Type 0 where
  pub kept : IsKept t r.3
  pub here : get_elem? r.3.buckets r.2 ≡ some r.1
  pub holder : Contains r.1 x
  pub wide : r.0 ≡ false → r.1.lo < r.1.hi

holds_range :
    (x : ℕ) (a b d : KBucket)
    → Contains a x
    → IsRange a.lo a.hi b
    → IsRange b.lo b.hi d
    → Contains d x
holds_range x a b d c p q = (omega (arith, c.0, p.0, q.0), omega (arith, c.1, p.1, q.1))

add_node_wide : (b : KBucket) (n : Node) → b.lo < b.hi → (add_node b n).1.lo < (add_node b n).1.hi
add_node_wide b n w = omega (arith, w, (add_node_range b n).0, (add_node_range b n).1)

pub insert_step-IsTried :
    (t : RoutingTable) (node : Node)
    → IsTable t
    → IsPeer node
    → node.long_id ≤ last_id
    → (r : Bool × KBucket × ℕ × RoutingTable) × (insert_step t node ≡ some r)
      × IsTried t node.long_id r
unfolding insert_step add_at
insert_step-IsTried t node i w p =
    let x = node.long_id in
    let j = bucket_index_for t x in
    let (a, e, c) = bucket_index_for-IsTable t x i p in
    let (u, f, k) = replace_stale_if_full-IsKept t j a node i e in
    let (b, g, q) = k.reach j a e in
    let h : IsIn b.lo b.hi node = (w, omega (arith, q.0, c.0), omega (arith, q.1, c.1)) in
    let v = All-get_elem? (IsBucket u.ksize) u.buckets j b k.table.buckets g in
    let m =
      set-IsKept u j b (add_node b node).1 u.health k.table g (add_node_range b node)
        (add_node-IsBucket u.ksize b node v h) in
    (
      (
        (add_node b node).0,
        (add_node b node).1,
        j,
        with_buckets u (set u.buckets j (add_node b node).1) u.health,
      ),
      rw (f, g) refl,
      record {
        kept = IsKept-trans t u _ k m;
        here = get_elem?-set u.buckets j b (add_node b node).1 g;
        holder = holds_range x a b (add_node b node).1 c q (add_node_range b node);
        wide = λ z. add_node_wide b node (refused-wide u.ksize b node k.table.positive v h z);
      },
    )
