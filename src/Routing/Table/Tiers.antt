-- ===== src/Routing/Table/Tiers.antt =====
-- src/routing.rs: what `find_neighbors` gives.
use auth_kademlia_rs.Prelude.{
  ℕ, ◌≤◌, ◌<◌, ◌≡◌, refl, sym, subst, ◌∙◌, ◌≢◌, ◌⊎◌, inl, inr, Bool, true, false, Option, none,
  some, List, [], ◌∷◌, arith, leb, Bool-cases, Option-cases, bytes_eq, length, retain,
}
use auth_kademlia_rs.Prelude.Unique.{bytes_eq→≡, bytes_eq→≢}
use auth_kademlia_rs.Prelude.Sort.{IsClosest}
use mathlib.Core.Option.{some-injective}
use auth_kademlia_rs.Node.{Node, distance_to}
use auth_kademlia_rs.Routing.Bucket.{is_nil}
use auth_kademlia_rs.Routing.Table.{RoutingTable, is_stale}
use auth_kademlia_rs.Routing.Table.Health.{primaries}
use auth_kademlia_rs.Routing.Table.Neighbors.{
  is_excluded, is_candidate, candidates, select, closest, healthy_only, not_stale_only,
  find_neighbors, IsSame, select-IsClosest, closest-IsSame,
}

-- Which contacts a lookup may use: the healthy ones when they are enough, else those that are not
-- stale when there are any, else all.
pub data IsTier (t : RoutingTable) (target : Node) (exclude : Option Node)
    : (Node → Bool) → Type 0 where
  healthy :
      t.min_lookup_contacts ≤ length (select t target exclude (healthy_only t))
      → IsTier t target exclude (healthy_only t)
  not_stale :
      length (select t target exclude (healthy_only t)) < t.min_lookup_contacts
      → is_nil (select t target exclude (not_stale_only t)) ≡ false
      → IsTier t target exclude (not_stale_only t)
  last_resort :
      length (select t target exclude (healthy_only t)) < t.min_lookup_contacts
      → is_nil (select t target exclude (not_stale_only t)) ≡ true
      → IsTier t target exclude (λ n. true)

-- The node is neither the target nor the excluded peer, and is kept.
abbrev pub IsOpen : Node → Option Node → (Node → Bool) → Node → Type 0
IsOpen target exclude keep n =
    (n.id ≢ target.id) × ((x : Node) → exclude ≡ some x → n.id ≢ x.id) × (keep n ≡ true)

-- The second list is the members of the first with the property, in their order.
pub data IsPool (P : Node → Type 0) : List Node → List Node → Type 0 where
  done : IsPool P [] []
  taken : {n : Node} {l pool : List Node} → P n → IsPool P l pool → IsPool P (n ∷ l) (n ∷ pool)
  left : {n : Node} {l pool : List Node} → (P n → ⊥) → IsPool P l pool → IsPool P (n ∷ l) pool

is_excluded-ne :
    (exclude : Option Node) (n : Node)
    → is_excluded exclude n ≡ false
    → (x : Node) → exclude ≡ some x
    → n.id ≢ x.id
is_excluded-ne none n e x f = absurd (cc)
is_excluded-ne (some y) n e x f =
    subst (λ z. n.id ≢ z.id) (some-injective y x f) (bytes_eq→≢ n.id y.id e)

is_excluded-eq :
    (exclude : Option Node) (n : Node)
    → is_excluded exclude n ≡ true
    → (x : Node) × (exclude ≡ some x) × (n.id ≡ x.id)
is_excluded-eq none n e = absurd (cc)
is_excluded-eq (some y) n e = (y, refl, bytes_eq→≡ n.id y.id e)

is_candidate-cases :
    (target : Node) (exclude : Option Node) (keep : Node → Bool) (n : Node)
    → ((is_candidate target exclude keep n ≡ true) × IsOpen target exclude keep n)
      ⊎ ((is_candidate target exclude keep n ≡ false) × (IsOpen target exclude keep n → ⊥))
is_candidate-cases target exclude keep n = elim (Bool-cases (bytes_eq n.id target.id)) [
  | inl own ↦ inr (rw own refl, λ o. o.0 (bytes_eq→≡ n.id target.id own))
  | inr other ↦ elim (Bool-cases (is_excluded exclude n)) [
    | inl out ↦
        let (x, e, same) = is_excluded-eq exclude n out in
        inr (rw (other, out) refl, λ o. o.1 x e same)
    | inr free ↦ elim (Bool-cases (keep n)) [
      | inl kept ↦ inl (
        rw (other, free, kept) refl,
        (bytes_eq→≢ n.id target.id other, is_excluded-ne exclude n free, kept),
      )
      | inr unkept ↦ inr (rw (other, free, unkept) refl, λ o. absurd (ground (arith, o.2)))
    ]
  ]
]

retain-IsPool :
    (target : Node) (exclude : Option Node) (keep : Node → Bool) (l : List Node)
    → IsPool (IsOpen target exclude keep) l (retain (is_candidate target exclude keep) l)
retain-IsPool target exclude keep [] = done
retain-IsPool target exclude keep (n ∷ l) = elim (is_candidate-cases target exclude keep n) [
  | inl (e, o) ↦ rw e (taken o (retain-IsPool target exclude keep l))
  | inr (e, o) ↦ rw e (left o (retain-IsPool target exclude keep l))
]

-- The result is the `ksize` closest to the target of the contacts that are open to the lookup.
abbrev pub IsSelected : RoutingTable → Node → Option Node → (Node → Bool) → List Node → Type 0
IsSelected t target exclude keep r =
    (pool : List Node) × IsPool (IsOpen target exclude keep) (primaries t.buckets) pool
    × IsClosest (λ n. distance_to n target) t.ksize pool r

selected :
    (t : RoutingTable) (target : Node) (exclude : Option Node) (keep : Node → Bool) (r : List Node)
    → r ≡ select t target exclude keep
    → IsSelected t target exclude keep r
unfolding candidates
selected t target exclude keep r e = (
  candidates t target exclude keep,
  retain-IsPool target exclude keep (primaries t.buckets),
  subst (IsClosest (λ n. distance_to n target) t.ksize (candidates t target exclude keep)) (sym e)
      (select-IsClosest t target exclude keep),
)

not_stale_same : (t u : RoutingTable) → IsSame t u → not_stale_only u ≡ not_stale_only t
unfolding is_stale
not_stale_same t u s = rw s.1 refl

-- When a lookup in the table returns, the result is, by ascending distance, the `ksize` contacts
-- closest to the target out of the contacts of a tier, the target and the excluded peer left out.
-- The tier is the healthy contacts when enough of them are found, else those that are not stale when
-- there are any, else all.
pub find_neighbors-IsClosest :
    (now_secs : ℕ) (t v : RoutingTable) (target : Node) (exclude : Option Node) (r : List Node)
    → find_neighbors now_secs t target exclude ≡ some (r, v)
    → (keep : Node → Bool) × IsTier t target exclude keep × IsSelected t target exclude keep r
unfolding find_neighbors
find_neighbors-IsClosest now_secs t v target exclude r e =
    elim (Option-cases (closest now_secs t target exclude (healthy_only t))) [
      | inl c ↦ absurd (ground arith)
      | inr ((hs, u), c) ↦
          let p =
            closest-IsSame now_secs t t u target exclude (healthy_only t) hs (refl, refl, refl) c in
          elim (Bool-cases (leb t.min_lookup_contacts (length hs))) [
            | inl f ↦
                let z : hs ≡ r = ground arith in
                (
                  healthy_only t,
                  healthy (subst (λ l. t.min_lookup_contacts ≤ length l) p.0 (ground arith)),
                  selected t target exclude (healthy_only t) r (sym z ∙ p.0),
                )
            | inr f ↦
                let few : length (select t target exclude (healthy_only t))
                    < t.min_lookup_contacts =
                  subst (λ l. length l < t.min_lookup_contacts) p.0 (ground arith) in
                elim (Option-cases (closest now_secs u target exclude (not_stale_only u))) [
                  | inl d ↦ absurd (ground arith)
                  | inr ((ns, w), d) ↦
                      let d' =
                        subst (λ k. closest now_secs u target exclude k ≡ some (ns, w))
                          (not_stale_same t u p.1) d in
                      let q =
                        closest-IsSame now_secs t u w target exclude (not_stale_only t) ns p.1 d' in
                      elim (Bool-cases (is_nil ns)) [
                        | inl g ↦
                            let o : closest now_secs w target exclude (λ n. true) ≡ some (r, v) =
                              ground arith in
                            (
                              λ n. true,
                              last_resort few (subst (λ l. is_nil l ≡ true) q.0 g),
                              selected t target exclude (λ n. true) r
                                  (closest-IsSame now_secs t w v target exclude (λ n. true) r q.1
                                    o).0,
                            )
                        | inr g ↦
                            let z : ns ≡ r = ground arith in
                            (
                              not_stale_only t,
                              not_stale few (subst (λ l. is_nil l ≡ false) q.0 g),
                              selected t target exclude (not_stale_only t) r (sym z ∙ q.0),
                            )
                      ]
                ]
          ]
    ]
