-- ===== src/Routing/Table/Partition.antt =====
-- src/routing.rs: the buckets of a table divide the ids among them.
use mathlib.Core.Option.{some-injective}
use auth_kademlia_rs.Prelude.{
  ℕ, zero, suc, ◌+◌, ◌≤◌, ◌<◌, ◌≡◌, refl, sym, ap, subst, ◌∙◌, inl, inr, true, false, some, List,
  [], ◌∷◌, ◌++◌, arith, Bool-cases, get_elem?, set, take, drop, All,
}
use auth_kademlia_rs.Routing.Bucket.{KBucket, covers}
use auth_kademlia_rs.Routing.Bucket.Split.{IsRange}
use auth_kademlia_rs.Routing.Table.{index_from}

-- The ranges are not empty, and each begins where the one before it ends.
abbrev pub IsChain : ℕ → ℕ → List KBucket → Type 0
IsChain lo hi [] = lo ≡ hi + 1
IsChain lo hi (b ∷ l) = (b.lo ≡ lo) × (lo ≤ b.hi) × IsChain (b.hi + 1) hi l

abbrev pub Contains : KBucket → ℕ → Type 0
Contains b x = (b.lo ≤ x) × (x ≤ b.hi)

pub covers-Contains : (b : KBucket) (x : ℕ) → covers b x ≡ true → Contains b x
unfolding covers
covers-Contains b x e = ground arith

pub IsChain-le : (lo hi : ℕ) (l : List KBucket) → IsChain lo hi l → lo ≤ hi + 1
IsChain-le lo hi [] c = omega (arith, c)
IsChain-le lo hi (b ∷ l) c = omega (arith, c.1, IsChain-le (b.hi + 1) hi l c.2)

covers-after : (b : KBucket) (lo x : ℕ) → b.lo ≡ lo → lo ≤ x → covers b x ≡ false → b.hi + 1 ≤ x
unfolding covers
covers-after b lo x c p e = ground arith

-- The bucket of an id.
pub index_from-IsChain :
    (j lo hi x : ℕ) (l : List KBucket)
    → IsChain lo hi l
    → lo ≤ x
    → x ≤ hi
    → (i : ℕ) × (b : KBucket) × (index_from j l x ≡ some (j + i))
      × (get_elem? l i ≡ some b)
      × Contains b x
unfolding index_from
index_from-IsChain j lo hi x [] c p q = absurd (omega (arith, c))
index_from-IsChain j lo hi x (b ∷ l) c p q = elim (Bool-cases (covers b x)) [
  | inl e ↦ (0, b, rw e (ap some (omega arith)), refl, covers-Contains b x e)
  | inr e ↦
      let (i, d, f, g, h) =
        index_from-IsChain (j + 1) (b.hi + 1) hi x l c.2 (covers-after b lo x c.0 p e) q in
      (suc i, d, rw e (f ∙ ap some (omega arith)), g, h)
]

pub get_elem?-IsChain :
    (lo hi i : ℕ) (l : List KBucket) (b : KBucket)
    → IsChain lo hi l
    → get_elem? l i ≡ some b
    → (lo ≤ b.lo) × (b.lo ≤ b.hi) × (b.hi ≤ hi)
get_elem?-IsChain lo hi i [] b c e = absurd (cc)
get_elem?-IsChain lo hi zero (d ∷ l) b c e =
    subst (λ b. (lo ≤ b.lo) × (b.lo ≤ b.hi) × (b.hi ≤ hi)) (some-injective d b e)
      (omega (arith, c.0), omega (arith, c.0, c.1), omega (arith, IsChain-le (d.hi + 1) hi l c.2))
get_elem?-IsChain lo hi (suc i) (d ∷ l) b c e =
    let r = get_elem?-IsChain (d.hi + 1) hi i l b c.2 e in (omega (arith, r.0, c.1), r.1, r.2)

-- A bucket is replaced by one of the same range.
pub set-IsChain :
    (lo hi i : ℕ) (l : List KBucket) (b d : KBucket)
    → IsChain lo hi l
    → get_elem? l i ≡ some b
    → IsRange b.lo b.hi d
    → IsChain lo hi (set l i d)
set-IsChain lo hi i [] b d c e r = c
set-IsChain lo hi zero (a ∷ l) b d c e r =
    let q : IsRange a.lo a.hi d = subst (λ z. IsRange z.lo z.hi d) (sym (some-injective a b e)) r in
    (q.0 ∙ c.0, omega (arith, q.1, c.1), subst (λ z. IsChain (z + 1) hi l) (sym q.1) c.2)
set-IsChain lo hi (suc i) (a ∷ l) b d c e r = (c.0, c.1, set-IsChain (a.hi + 1) hi i l b d c.2 e r)

-- Two neighbours take the place of a bucket.
pub split-IsChain :
    (lo hi i m : ℕ) (l : List KBucket) (b low high : KBucket)
    → IsChain lo hi l
    → get_elem? l i ≡ some b
    → IsRange b.lo m low
    → IsRange (m + 1) b.hi high
    → b.lo ≤ m
    → m < b.hi
    → IsChain lo hi (take i l ++ low ∷ high ∷ drop (suc i) l)
split-IsChain lo hi i m [] b low high c e p q u v = absurd (cc)
split-IsChain lo hi zero m (a ∷ l) b low high c e p q u v =
    let s : a ≡ b = some-injective a b e in
    let c' : IsChain lo hi (b ∷ l) = subst (λ z. IsChain lo hi (z ∷ l)) s c in
    (
      p.0 ∙ c'.0,
      omega (arith, p.1, c'.0),
      (
        omega (arith, q.0, p.1),
        omega (arith, q.1, p.1),
        subst (λ z. IsChain (z + 1) hi l) (sym q.1) c'.2,
      ),
    )
split-IsChain lo hi (suc i) m (a ∷ l) b low high c e p q u v =
    (c.0, c.1, split-IsChain (a.hi + 1) hi i m l b low high c.2 e p q u v)

module _ (P : KBucket → Type 0) where
  pub All-get_elem? :
      (l : List KBucket) (i : ℕ) (b : KBucket) → All P l → get_elem? l i ≡ some b → P b
  All-get_elem? [] i b h e = absurd (cc)
  All-get_elem? (a ∷ l) zero b h e = subst P (some-injective a b e) h.0
  All-get_elem? (a ∷ l) (suc i) b h e = All-get_elem? l i b h.1 e

  pub All-set : (l : List KBucket) (i : ℕ) (d : KBucket) → All P l → P d → All P (set l i d)
  All-set [] i d h p = tt
  All-set (a ∷ l) zero d h p = (p, h.1)
  All-set (a ∷ l) (suc i) d h p = (h.0, All-set l i d h.1 p)

  pub All-split :
      (l : List KBucket) (i : ℕ) (low high : KBucket)
      → All P l
      → P low
      → P high
      → All P (take i l ++ low ∷ high ∷ drop (suc i) l)
  All-split [] zero low high h p q = (p, (q, tt))
  All-split [] (suc i) low high h p q = (p, (q, tt))
  All-split (a ∷ l) zero low high h p q = (p, (q, h.1))
  All-split (a ∷ l) (suc i) low high h p q = (h.0, All-split l i low high h.1 p q)

-- An index that is in bounds stays so, with a bucket of the same range.
pub get_elem?-set-IsRange :
    (l : List KBucket) (i j : ℕ) (a b d : KBucket)
    → get_elem? l i ≡ some a
    → get_elem? l j ≡ some b
    → IsRange b.lo b.hi d
    → (c : KBucket) × (get_elem? (set l j d) i ≡ some c) × IsRange a.lo a.hi c
get_elem?-set-IsRange [] i j a b d e f r = absurd (cc)
get_elem?-set-IsRange (x ∷ l) zero zero a b d e f r = (
  d,
  refl,
  subst (λ z. IsRange z.lo z.hi d) (sym (some-injective x b f) ∙ some-injective x a e) r,
)
get_elem?-set-IsRange (x ∷ l) zero (suc j) a b d e f r =
    (x, refl, subst (λ z. IsRange z.lo z.hi x) (some-injective x a e) (refl, refl))
get_elem?-set-IsRange (x ∷ l) (suc i) zero a b d e f r = (a, e, (refl, refl))
get_elem?-set-IsRange (x ∷ l) (suc i) (suc j) a b d e f r = get_elem?-set-IsRange l i j a b d e f r

-- An id is in one bucket only.
module _ (x : ℕ) (Q : KBucket → Type 0) where
  after-All :
      (lo hi : ℕ) (l : List KBucket) → IsChain lo hi l → x < lo → All (λ c. Contains c x → Q c) l
  after-All lo hi [] c p = tt
  after-All lo hi (b ∷ l) c p =
      (λ h. absurd (omega (arith, h.0, c.0)), after-All (b.hi + 1) hi l c.2 (omega (arith, c.1)))

  pub holder-All :
      (lo hi i : ℕ) (l : List KBucket) (b low high : KBucket)
      → IsChain lo hi l
      → get_elem? l i ≡ some b
      → Contains b x
      → (Contains low x → Q low)
      → (Contains high x → Q high)
      → All (λ c. Contains c x → Q c) (take i l ++ low ∷ high ∷ drop (suc i) l)
  holder-All lo hi i [] b low high c e h p q = absurd (cc)
  holder-All lo hi zero (a ∷ l) b low high c e h p q =
      let s : a ≡ b = some-injective a b e in
      (
        p,
        (q, after-All (a.hi + 1) hi l c.2 (subst (λ z. x < z.hi + 1) (sym s) (omega (arith, h.1)))),
      )
  holder-All lo hi (suc i) (a ∷ l) b low high c e h p q =
      let r = get_elem?-IsChain (a.hi + 1) hi i l b c.2 e in
      (
        λ k. absurd (omega (arith, k.1, h.0, r.0)),
        holder-All (a.hi + 1) hi i l b low high c.2 e h p q,
      )
