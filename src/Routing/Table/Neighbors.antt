-- ===== src/Routing/Table/Neighbors.antt =====
-- src/routing.rs: the closest contacts of a target, and which contacts a lookup uses.
use mathlib.Core.Option.{map as option_map, some-injective}
use auth_kademlia_rs.Prelude.{
  ℕ, zero, suc, ◌≡◌, refl, sym, ap, subst, ◌∙◌, inl, inr, Bool, true, false, not, ◌&&◌, Option,
  none, some, List, [], ◌∷◌, map, arith, leb, if◌then◌else◌, Bool-cases, Option-cases, bytes_eq,
  length, get_elem?, set, take, retain,
}
use auth_kademlia_rs.Prelude.Sort.{insert_by, sort_by_key, IsClosest, take-sort_by_key-IsClosest}
use auth_kademlia_rs.Node.{Node, distance_to}
use auth_kademlia_rs.Routing.Bucket.{KBucket, touch_last_updated, is_nil}
use auth_kademlia_rs.Routing.Table.{
  RoutingTable, with_buckets, bucket_index_for, has_failures, is_stale,
}
use auth_kademlia_rs.Routing.Table.Health.{primaries}

abbrev pub is_excluded : Option Node → Node → Bool
is_excluded none n = false
is_excluded (some excluded) n = bytes_eq n.id excluded.id

-- The filter of `closest`.
abbrev pub is_candidate : Node → Option Node → (Node → Bool) → Node → Bool
is_candidate target exclude keep n =
    not (bytes_eq n.id target.id) && not (is_excluded exclude n) && keep n

unfoldable pub candidates : RoutingTable → Node → Option Node → (Node → Bool) → List Node
unfolding primaries
candidates t target exclude keep = retain (is_candidate target exclude keep) (primaries t.buckets)

unfoldable pub touch_target : ℕ → RoutingTable → Node → Option RoutingTable
touch_target now_secs t target =
    let idx = bucket_index_for t target.long_id in
    option_map (λ b. with_buckets t (set t.buckets idx (touch_last_updated now_secs b)) t.health)
      (get_elem? t.buckets idx)

abbrev rank : ℕ × Node → ℕ
rank e = e.0

abbrev untag : ℕ × Node → Node
untag e = e.1

unfoldable pub select : RoutingTable → Node → Option Node → (Node → Bool) → List Node
unfolding candidates
select t target exclude keep = map untag (
    take t.ksize
      (sort_by_key rank (map (λ n. (distance_to n target, n)) (candidates t target exclude keep))))

unfoldable pub closest :
    ℕ → RoutingTable → Node → Option Node → (Node → Bool) → Option (List Node × RoutingTable)
unfolding touch_target select
closest now_secs t target exclude keep =
    option_map (λ u. (select u target exclude keep, u)) (touch_target now_secs t target)

abbrev pub healthy_only : RoutingTable → Node → Bool
healthy_only t n = not (has_failures t n.id)

abbrev pub not_stale_only : RoutingTable → Node → Bool
not_stale_only t n = not (is_stale t n.id)

unfoldable pub find_neighbors :
    ℕ → RoutingTable → Node → Option Node → Option (List Node × RoutingTable)
unfolding closest
find_neighbors now_secs t target exclude =
    elim (closest now_secs t target exclude (healthy_only t)) [
      | none ↦ none
      | some (healthy, u) ↦
          if leb t.min_lookup_contacts (length healthy)
          then some (healthy, u)
          else elim (closest now_secs u target exclude (not_stale_only u)) [
            | none ↦ none
            | some (not_stale, v) ↦
                if is_nil not_stale
                then closest now_secs v target exclude (λ n. true)
                else some (not_stale, v)
          ]
    ]

unfoldable pub find_neighbors_to_advertise :
    ℕ → RoutingTable → Node → Option Node → Option (List Node × RoutingTable)
unfolding closest
find_neighbors_to_advertise now_secs t target exclude =
    closest now_secs t target exclude (not_stale_only t)

module _ (d : Node → ℕ) where
  abbrev tag : Node → ℕ × Node
  tag n = (d n, n)

  insert_by-tag :
      (n : Node) (l : List Node) → insert_by rank (tag n) (map tag l) ≡ map tag (insert_by d n l)
  unfolding insert_by
  insert_by-tag n [] = refl
  insert_by-tag n (m ∷ l) = elim (Bool-cases (leb (d n) (d m))) [
    | inl e ↦ rw e refl
    | inr e ↦ rw (e, insert_by-tag n l) refl
  ]

  sort_by_key-tag : (l : List Node) → sort_by_key rank (map tag l) ≡ map tag (sort_by_key d l)
  unfolding sort_by_key
  sort_by_key-tag [] = refl
  sort_by_key-tag (n ∷ l) = rw (sort_by_key-tag l) (insert_by-tag n (sort_by_key d l))

  take-tag : (k : ℕ) (l : List Node) → map untag (take k (map tag l)) ≡ take k l
  take-tag zero l = refl
  take-tag (suc k) [] = refl
  take-tag (suc k) (n ∷ l) = rw (take-tag k l) refl

-- The selection is the closest of its candidates.
pub select-IsClosest :
    (t : RoutingTable) (target : Node) (exclude : Option Node) (keep : Node → Bool)
    → IsClosest
        (λ n. distance_to n target)
        t.ksize
        (candidates t target exclude keep)
        (select t target exclude keep)
unfolding select
select-IsClosest t target exclude keep =
    let d = λ (n : Node). distance_to n target in
    let l = candidates t target exclude keep in
    subst (IsClosest d t.ksize l)
      (sym (
        ap (λ r. map untag (take t.ksize r)) (sort_by_key-tag d l)
        ∙ take-tag d t.ksize (sort_by_key d l)))
      (take-sort_by_key-IsClosest d t.ksize l)

-- Touching a bucket changes no contact.
primaries-touch :
    (l : List KBucket) (i now_secs : ℕ) (b : KBucket)
    → get_elem? l i ≡ some b
    → primaries (set l i (touch_last_updated now_secs b)) ≡ primaries l
unfolding primaries touch_last_updated
primaries-touch [] i now_secs b e = refl
primaries-touch (c ∷ l) zero now_secs b e = ground arith
primaries-touch (c ∷ l) (suc i) now_secs b e = rw (primaries-touch l i now_secs b e) refl

-- `u` has the contacts and the failures of `t`.
abbrev pub IsSame : RoutingTable → RoutingTable → Type 0
IsSame t u =
    (primaries u.buckets ≡ primaries t.buckets) × (u.health ≡ t.health) × (u.ksize ≡ t.ksize)

touch_target-IsSame :
    (now_secs : ℕ) (t u : RoutingTable) (target : Node)
    → touch_target now_secs t target ≡ some u
    → IsSame t u
unfolding touch_target
touch_target-IsSame now_secs t u target e =
    elim (Option-cases (get_elem? t.buckets (bucket_index_for t target.long_id))) [
      | inl c ↦ absurd (ground arith)
      | inr (b, c) ↦
          let p : some (
                with_buckets t
                  (set t.buckets (bucket_index_for t target.long_id)
                    (touch_last_updated now_secs b))
                  t.health)
              ≡ some u =
            ground arith in
          subst (IsSame t) (some-injective _ _ p)
            (primaries-touch t.buckets (bucket_index_for t target.long_id) now_secs b c, refl, refl)
    ]

IsSame-trans : (t u v : RoutingTable) → IsSame t u → IsSame u v → IsSame t v
IsSame-trans t u v p q = (q.0 ∙ p.0, q.1 ∙ p.1, q.2 ∙ p.2)

select-same :
    (t u : RoutingTable) (target : Node) (exclude : Option Node) (keep : Node → Bool)
    → IsSame t u
    → select u target exclude keep ≡ select t target exclude keep
unfolding select candidates
select-same t u target exclude keep s = rw (s.0, s.2) refl

-- A selection on a table with the same contacts, and what it leaves.
pub closest-IsSame :
    (now_secs : ℕ) (t u v : RoutingTable) (target : Node) (exclude : Option Node)
    (keep : Node → Bool) (r : List Node)
    → IsSame t u
    → closest now_secs u target exclude keep ≡ some (r, v)
    → (r ≡ select t target exclude keep) × IsSame t v
unfolding closest
closest-IsSame now_secs t u v target exclude keep r s e =
    elim (Option-cases (touch_target now_secs u target)) [
      | inl c ↦ absurd (ground arith)
      | inr (w, c) ↦
          let p : ◌≡◌ {A = Option (List Node × RoutingTable)}
              (some (select w target exclude keep, w)) (some (r, v)) =
            ground arith in
          let q = some-injective _ _ p in
          let z = IsSame-trans t u w s (touch_target-IsSame now_secs u w target c) in
          (
            sym (ap (λ a. a.0) q) ∙ select-same t w target exclude keep z,
            subst (IsSame t) (ap (λ a. a.1) q) z,
          )
    ]
