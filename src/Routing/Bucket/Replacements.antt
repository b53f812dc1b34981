-- ===== src/Routing/Bucket/Replacements.antt =====
-- src/routing.rs: a removal and the replacement it promotes.
use auth_kademlia_rs.Prelude.{
  ℕ, ◌+◌, ◌≤◌, ◌≡◌, refl, sym, ap, subst, ◌≢◌, ◌⊎◌, inl, inr, Bool, true, not, List, [], ◌∷◌, ◌++◌,
  arith, Bool-cases, length, retain, remove_first, All, length-append, length-retain-le, All-append,
  All-retain, All-remove_first,
}
use auth_kademlia_rs.Prelude.Unique.{
  IsUnique, IsUnique-snoc, IsUnique-retain, IsUnique-remove_first,
}
use auth_kademlia_rs.Node.{Node}
use auth_kademlia_rs.Routing.Bucket.{KBucket, with_nodes, same_id, contains, pop_back, remove_node}
use auth_kademlia_rs.Routing.Bucket.Laws.{
  id_of, IsIn, AreApart, IsBucket, All-imp, pop_back-All, length-remove_first,
}

-- What `pop_back` takes is the last of a list without duplicates.
record IsPopped (l : List Node) : Type 0 where
  left-unique : IsUnique id_of (pop_back l).0
  last-unique : IsUnique id_of (pop_back l).1
  left-apart : AreApart (pop_back l).1 (pop_back l).0
  size : length (pop_back l).0 + length (pop_back l).1 ≡ length l
  last-size : length (pop_back l).1 ≤ 1
  last : ((pop_back l).0 ≡ []) ⊎ (length (pop_back l).1 ≡ 1)

length-last : (x : Node) (l : List Node) → length (pop_back (x ∷ l)).1 ≡ 1
unfolding pop_back
length-last x [] = refl
length-last x (y ∷ l) = length-last y l

pop_back-IsPopped : (l : List Node) → IsUnique id_of l → IsPopped l
unfolding pop_back
pop_back-IsPopped [] u = record {
  left-unique = tt;
  last-unique = tt;
  left-apart = tt;
  size = refl;
  last-size = omega arith;
  last = inl refl;
}
pop_back-IsPopped (x ∷ []) u = record {
  left-unique = tt;
  last-unique = (tt, tt);
  left-apart = tt;
  size = refl;
  last-size = omega arith;
  last = inr refl;
}
pop_back-IsPopped (x ∷ y ∷ l) u =
    let r = pop_back-IsPopped (y ∷ l) u.1 in
    let p = pop_back-All (λ n. n.id ≢ x.id) (y ∷ l) u.0 in
    record {
      left-unique = (p.0, r.left-unique);
      last-unique = r.last-unique;
      left-apart = (p.1, r.left-apart);
      size = omega (arith, r.size);
      last-size = r.last-size;
      last = inr (length-last y l);
    }

append-nil_eq : (l : List Node) → l ++ [] ≡ l
append-nil_eq [] = refl
append-nil_eq (x ∷ l) = ap (λ r. x ∷ r) (append-nil_eq l)

-- The last element, when there is one, comes behind the contacts.
promoted-IsUnique :
    (l p : List Node) → length p ≤ 1 → IsUnique id_of l → AreApart l p → IsUnique id_of (l ++ p)
promoted-IsUnique l [] s u a = subst (IsUnique id_of) (sym (append-nil_eq l)) u
promoted-IsUnique l (x ∷ []) s u a = IsUnique-snoc id_of l x u a.0
promoted-IsUnique l (x ∷ y ∷ p) s u a = absurd (omega arith)

pub retain-nil : (p : Node → Bool) (l : List Node) → l ≡ [] → retain p l ≡ []
retain-nil p [] e = refl
retain-nil p (x ∷ l) e = absurd (cc)

append-apart : (l p r : List Node) → AreApart l r → AreApart p r → AreApart (l ++ p) r
append-apart l p [] a b = tt
append-apart l p (x ∷ r) a b =
    (All-append (λ m. m.id ≢ x.id) l p a.0 b.0, append-apart l p r a.1 b.1)

promote-IsBucket :
    (k : ℕ) (b : KBucket) (node : Node)
    → IsBucket k b
    → contains b node ≡ true
    → IsBucket k (
        with_nodes b
          (remove_first (same_id node) b.nodes
            ++ (pop_back (retain (λ n. not (same_id node n)) b.replacement_nodes)).1)
          (pop_back (retain (λ n. not (same_id node n)) b.replacement_nodes)).0)
unfolding contains
promote-IsBucket k b node i e =
    let kept = retain (λ n. not (same_id node n)) b.replacement_nodes in
    let left = remove_first (same_id node) b.nodes in
    let r = pop_back-IsPopped kept (
      IsUnique-retain id_of (λ n. not (same_id node n)) b.replacement_nodes
        i.replacements-unique) in
    let ins = pop_back-All (IsIn b.lo b.hi) kept (
      All-retain (IsIn b.lo b.hi) (λ n. not (same_id node n)) b.replacement_nodes
        i.replacements-in) in
    let aps =
      pop_back-All (λ n. All (λ m. m.id ≢ n.id) left) kept
        (All-retain (λ n. All (λ m. m.id ≢ n.id) left) (λ n. not (same_id node n))
          b.replacement_nodes
          (All-imp (λ n. All-remove_first (λ m. m.id ≢ n.id) (same_id node) b.nodes)
            b.replacement_nodes i.apart)) in
    let s = length-remove_first node b.nodes e in
    let t = length-append left (pop_back kept).1 in
    let q = length-retain-le (λ n. not (same_id node n)) b.replacement_nodes in
    let one = r.last-size in
    record {
      ksize = i.ksize;
      max_replacement_nodes = i.max_replacement_nodes;
      nodes-size = omega (arith, s, t, one, i.nodes-size);
      replacements-size = omega (arith, q, r.size, i.replacements-size);
      full = elim r.last [
        | inl z ↦ inl z
        | inr z ↦ inr (elim i.full [
          | inl n ↦ absurd (ground (arith, q, r.size, ap length n))
          | inr n ↦ omega (arith, s, t, z, n)
        ])
      ];
      nodes-unique =
          promoted-IsUnique left (pop_back kept).1 one
            (IsUnique-remove_first id_of (same_id node) b.nodes i.nodes-unique) aps.1;
      replacements-unique = r.left-unique;
      apart = append-apart left (pop_back kept).1 (pop_back kept).0 aps.0 r.left-apart;
      nodes-in =
          All-append (IsIn b.lo b.hi) left (pop_back kept).1
            (All-remove_first (IsIn b.lo b.hi) (same_id node) b.nodes i.nodes-in) ins.1;
      replacements-in = ins.0;
    }

drop-IsBucket :
    (k : ℕ) (b : KBucket) (node : Node)
    → IsBucket k b
    → IsBucket k (with_nodes b b.nodes (retain (λ n. not (same_id node n)) b.replacement_nodes))
drop-IsBucket k b node i =
    let p = λ (n : Node). not (same_id node n) in
    record {
      ksize = i.ksize;
      max_replacement_nodes = i.max_replacement_nodes;
      nodes-size = i.nodes-size;
      replacements-size =
          omega (arith, i.replacements-size, length-retain-le p b.replacement_nodes);
      full = elim i.full [ inl z ↦ inl (retain-nil p b.replacement_nodes z) | inr z ↦ inr z ];
      nodes-unique = i.nodes-unique;
      replacements-unique = IsUnique-retain id_of p b.replacement_nodes i.replacements-unique;
      apart = All-retain (λ n. All (λ m. m.id ≢ n.id) b.nodes) p b.replacement_nodes i.apart;
      nodes-in = i.nodes-in;
      replacements-in = All-retain (IsIn b.lo b.hi) p b.replacement_nodes i.replacements-in;
    }

-- Removing a peer, and promoting a replacement if it was a contact, keeps the bucket well formed.
pub remove_node-IsBucket :
    (k : ℕ) (b : KBucket) (node : Node) → IsBucket k b → IsBucket k (remove_node b node)
unfolding remove_node
remove_node-IsBucket k b node i = elim (Bool-cases (contains b node)) [
  | inl e ↦ rw e (promote-IsBucket k b node i e)
  | inr e ↦ rw e (drop-IsBucket k b node i)
]
