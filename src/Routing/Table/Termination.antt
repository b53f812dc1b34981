-- ===== src/Routing/Table/Termination.antt =====
-- src/routing.rs: `insert` ends, because each split halves the range of the peer's bucket.
use auth_kademlia_rs.Prelude.{
  ℕ, zero, suc, ◌+◌, ◌*◌, ◌^◌, ◌≤◌, ◌<◌, ◌≡◌, refl, inl, inr, true, false, Option, none, some, List,
  [], ◌∷◌, ◌++◌, arith, Bool-cases, bytes_eq, get_elem?, take, drop,
}
use auth_kademlia_rs.Node.{Node}
use auth_kademlia_rs.Routing.Bucket.{KBucket, midpoint, split, head}
use auth_kademlia_rs.Routing.Bucket as Bucket
use auth_kademlia_rs.Routing.Bucket.Laws.{IsPeer, IsBucket, new-IsBucket}
use auth_kademlia_rs.Routing.Bucket.Split.{split-IsBucket}
use auth_kademlia_rs.Routing.Table.{
  RoutingTable, with_buckets, last_id, new, split_bucket, may_split, insert_rest, insert,
  add_contact, bucket_index_for, Tried, Inserted,
}
use auth_kademlia_rs.Routing.Table.Partition.{
  IsChain, Contains, split-IsChain, All-get_elem?, All-split, holder-All, IsChain-le,
}
use auth_kademlia_rs.Routing.Table.Insert.{
  IsTable, IsNarrow, IsTried, bucket_index_for-IsTable, insert_step-IsTried,
}

-- A new table is well formed.
pub new-IsTable : (now_secs ksize : ℕ) (node : Node) → 1 ≤ ksize → IsTable (new now_secs node ksize)
unfolding new Bucket.new
new-IsTable now_secs ksize node p = record {
  positive = p;
  chain = (refl, omega arith, refl);
  buckets = (new-IsBucket now_secs 0 last_id ksize, tt);
}

-- A split keeps the table, and halves the bucket that holds `x`.
split_bucket-IsTable :
    (now_secs w x i : ℕ) (t : RoutingTable) (b : KBucket)
    → IsTable t
    → get_elem? t.buckets i ≡ some b
    → Contains b x
    → b.lo < b.hi
    → b.hi < b.lo + 2 * w
    → (u : RoutingTable) × (split_bucket now_secs t i ≡ some u) × IsTable u × IsNarrow x w u.buckets
unfolding split_bucket midpoint
split_bucket-IsTable now_secs w x i t b k e h p q =
    let (low, high) = split now_secs b in
    let s =
      split-IsBucket now_secs t.ksize b
        (All-get_elem? (IsBucket t.ksize) t.buckets i b k.buckets e) in
    (
      with_buckets t (take i t.buckets ++ low ∷ high ∷ drop (suc i) t.buckets) t.health,
      rw e refl,
      record {
        positive = k.positive;
        chain =
            split-IsChain 0 last_id i (midpoint b) t.buckets b low high k.chain e s.0.1 s.1.1
              (omega arith) (omega (arith, p));
        buckets = All-split (IsBucket t.ksize) t.buckets i low high k.buckets s.0.0 s.1.0;
      },
      holder-All x (λ c. c.hi < c.lo + w) 0 last_id i t.buckets b low high k.chain e h
          (λ c. omega (arith, s.0.1.0, s.0.1.1, q)) (λ c. omega (arith, s.1.1.0, s.1.1.1, q)),
    )

-- The ids of a bucket that `fuel` calls can divide.
abbrev span : ℕ → ℕ
span zero = 0
span (suc fuel) = 2 ^ fuel

span-halves : (fuel lo hi : ℕ) → lo < hi → hi < lo + span (suc fuel) → hi < lo + 2 * span fuel
span-halves zero lo hi p q = absurd (omega (arith, p, q))
span-halves (suc fuel) lo hi p q =
    let r : hi < lo + 2 ^ suc fuel = q in let s : hi < lo + 2 * 2 ^ fuel = omega (arith, r) in s

-- A result, and a well-formed table in it.
Returns : Inserted → Type 0
Returns o = (s : Option Node × RoutingTable) × (o ≡ some s) × IsTable s.1

rest-IsTable :
    (fuel now_secs x : ℕ) (t : RoutingTable) (r : Tried) (again : RoutingTable → Inserted)
    → ((v : RoutingTable) → IsTable v → IsNarrow x (span fuel) v.buckets → Returns (again v))
    → IsNarrow x (span (suc fuel)) t.buckets
    → IsTried t x r
    → Returns (insert_rest now_secs again (some r))
unfolding insert_rest Returns
rest-IsTable fuel now_secs x t (true, b, i, u) again f n d = ((none, u), refl, d.kept.table)
rest-IsTable fuel now_secs x t (false, b, i, u) again f n d = elim (Bool-cases (may_split u b)) [
  | inr e ↦ ((head b, u), rw e refl, d.kept.table)
  | inl e ↦
      let h =
        All-get_elem? (λ c. Contains c x → c.hi < c.lo + span (suc fuel)) u.buckets i b
          (d.kept.narrow x (span (suc fuel)) n) d.here d.holder in
      let (v, g, k, m) =
        split_bucket-IsTable now_secs (span fuel) x i u b d.kept.table d.here d.holder (d.wide refl)
          (span-halves fuel b.lo b.hi (d.wide refl) h) in
      let (s, a, q) = f v k m in (s, rw (e, g) a, q)
]

-- With fuel for the width of the bucket, `insert` returns, and the table stays well formed.
insert-IsTable :
    (fuel now_secs : ℕ) (t : RoutingTable) (node : Node)
    → IsTable t
    → IsPeer node
    → node.long_id ≤ last_id
    → IsNarrow node.long_id (span fuel) t.buckets
    → Returns (insert fuel now_secs t node)
unfolding insert Returns
insert-IsTable zero now_secs t node k w p n =
    let (b, e, c) = bucket_index_for-IsTable t node.long_id k p in
    absurd (
      omega (
        arith,
        c.0,
        c.1,
        All-get_elem? (λ c. Contains c node.long_id → c.hi < c.lo + 0) t.buckets
            (bucket_index_for t node.long_id) b n e c,
      ))
insert-IsTable (suc fuel) now_secs t node k w p n =
    let (r, e, d) = insert_step-IsTried t node k w p in
    let (s, f, q) =
      rest-IsTable fuel now_secs node.long_id t r (λ v. insert fuel now_secs v node)
        (λ v j m. insert-IsTable fuel now_secs v node j w p m) n d in
    (s, rw e f, q)

all-IsNarrow : (x lo : ℕ) (l : List KBucket) → IsChain lo last_id l → IsNarrow x (span 161) l
all-IsNarrow x lo [] c = tt
all-IsNarrow x lo (b ∷ l) c =
    (λ h. omega (arith, IsChain-le (b.hi + 1) last_id l c.2), all-IsNarrow x (b.hi + 1) l c.2)

-- On a well-formed table, adding a peer with a 20-byte id, its number at most the last id, returns
-- within 161 calls of `insert`, with every index in bounds, and leaves a well-formed table: the
-- ranges of the buckets divide the ids, and each bucket is well formed.
pub add_contact-IsTable :
    (now_secs : ℕ) (t : RoutingTable) (node : Node)
    → IsTable t
    → IsPeer node
    → node.long_id ≤ last_id
    → (r : Option Node × RoutingTable) × (add_contact 161 now_secs t node ≡ some r) × IsTable r.1
unfolding add_contact Returns
add_contact-IsTable now_secs t node k w p = elim (Bool-cases (bytes_eq node.id t.node.id)) [
  | inl e ↦ ((none, t), rw e refl, k)
  | inr e ↦
      let (s, f, q) =
        insert-IsTable 161 now_secs t node k w p (all-IsNarrow node.long_id 0 t.buckets k.chain) in
      (s, rw e f, q)
]
