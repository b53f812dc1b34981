-- ===== src/Crawling/Votes.antt =====
-- src/crawling.rs: a value wins exactly if it has the votes.
use mathlib.Core.Option.{some-injective}
use auth_kademlia_rs.Prelude.{
  ℕ, ◌+◌, ◌*◌, ◌≤◌, ◌<◌, max, ◌≡◌, refl, sym, ap, subst, ◌∙◌, ◌≢◌, ◌↔◌, inl, inr, true, false, none,
  some, List, [], ◌∷◌, arith, ltb, ◌==◌, if◌then◌else◌, Bool-cases, Bytes, bytes_eq, length, retain,
  All,
}
use auth_kademlia_rs.Prelude.Unique.{IsUnique, bytes_eq→≡, bytes_eq→≢, bytes_eq_refl}
use auth_kademlia_rs.Crawling.{
  bump, tally, max_from, sole, required_votes, choose, strict_quorum_value,
}

abbrev pub Counts : Type 0
Counts = List (Bytes × ℕ)

-- How often `w` is among the values.
abbrev pub occurrences : Bytes → List Bytes → ℕ
occurrences w [] = 0
occurrences w (v ∷ vs) = (if bytes_eq v w then 1 else 0) + occurrences w vs

abbrev votes : Bytes → Counts → ℕ
votes w [] = 0
votes w ((u, n) ∷ l) = (if bytes_eq u w then n else 0) + votes w l

abbrev total : Counts → ℕ
total [] = 0
total ((u, n) ∷ l) = n + total l

abbrev key : Bytes × ℕ → Bytes
key e = e.0

votes-bump :
    (w v : Bytes) (l : Counts) → votes w (bump v l) ≡ votes w l + (if bytes_eq v w then 1 else 0)
unfolding bump
votes-bump w v [] = omega arith
votes-bump w v ((u, n) ∷ l) = elim (Bool-cases (bytes_eq u v)) [
  | inl e ↦ rw e (
      subst
        (λ z.
          (if bytes_eq u w then n + 1 else 0) + votes w l
          ≡ (if bytes_eq u w then n else 0) + votes w l + (if bytes_eq z w then 1 else 0))
        (bytes_eq→≡ u v e) (ground arith))
  | inr e ↦ rw e (omega (arith, votes-bump w v l))
]

total-bump : (v : Bytes) (l : Counts) → total (bump v l) ≡ total l + 1
unfolding bump
total-bump v [] = omega arith
total-bump v ((u, n) ∷ l) = ground (arith, total-bump v l)

bump-All :
    (P : Bytes → Type 0) (v : Bytes) (l : Counts)
    → P v
    → All (λ e. P (key e)) l
    → All (λ e. P (key e)) (bump v l)
unfolding bump
bump-All P v [] p h = (p, tt)
bump-All P v ((u, n) ∷ l) p h = elim (Bool-cases (bytes_eq u v)) [
  | inl e ↦ rw e (h.0, h.1)
  | inr e ↦ rw e (h.0, bump-All P v l p h.1)
]

bump-IsUnique : (v : Bytes) (l : Counts) → IsUnique key l → IsUnique key (bump v l)
unfolding bump
bump-IsUnique v [] h = (tt, tt)
bump-IsUnique v ((u, n) ∷ l) h = elim (Bool-cases (bytes_eq u v)) [
  | inl e ↦ rw e (h.0, h.1)
  | inr e ↦
      rw e (bump-All (λ z. z ≢ u) v l (λ q. bytes_eq→≢ u v e (sym q)) h.0, bump-IsUnique v l h.1)
]

votes-tally :
    (w : Bytes) (l : Counts) (vs : List Bytes) → votes w (tally l vs) ≡ votes w l + occurrences w vs
unfolding tally
votes-tally w l [] = omega arith
votes-tally w l (v ∷ vs) = omega (arith, votes-tally w (bump v l) vs, votes-bump w v l)

total-tally : (l : Counts) (vs : List Bytes) → total (tally l vs) ≡ total l + length vs
unfolding tally
total-tally l [] = omega arith
total-tally l (v ∷ vs) = omega (arith, total-tally (bump v l) vs, total-bump v l)

tally-IsUnique : (l : Counts) (vs : List Bytes) → IsUnique key l → IsUnique key (tally l vs)
unfolding tally
tally-IsUnique l [] h = h
tally-IsUnique l (v ∷ vs) h = tally-IsUnique (bump v l) vs (bump-IsUnique v l h)

votes-none : (w : Bytes) (l : Counts) → All (λ e. key e ≢ w) l → votes w l ≡ 0
votes-none w [] h = refl
votes-none w ((u, n) ∷ l) h = elim (Bool-cases (bytes_eq u w)) [
  | inl e ↦ absurd (h.0 (bytes_eq→≡ u w e))
  | inr e ↦ rw e (omega (arith, votes-none w l h.1))
]

votes-le_total : (w : Bytes) (l : Counts) → votes w l ≤ total l
votes-le_total w [] = omega arith
votes-le_total w ((u, n) ∷ l) = ground (arith, votes-le_total w l)

sole-cons :
    (a : Bytes × ℕ) (l : Counts) (w : Bytes) → sole (a ∷ l) ≡ some w → (l ≡ []) × (key a ≡ w)
sole-cons a [] w e = (refl, some-injective a.0 w e)
sole-cons a (b ∷ l) w e = absurd (cc)

votes-first :
    (v w : Bytes) (n : ℕ) (l : Counts)
    → IsUnique key ((v, n) ∷ l)
    → bytes_eq v w ≡ true
    → votes w l ≡ 0
votes-first v w n l u e = subst (λ k. votes k l ≡ 0) (bytes_eq→≡ v w e) (votes-none v l u.0)

-- The one entry of a count is the votes of its value.
sole-votes :
    (h : ℕ) (w : Bytes) (l : Counts)
    → 0 < h
    → IsUnique key l
    → sole (retain (λ e. e.1 == h) l) ≡ some w
    → votes w l ≡ h
sole-votes h w [] p u e = absurd (cc)
sole-votes h w ((v, n) ∷ l) p u e = elim (Bool-cases (n == h)) [
  | inl c ↦
      let t : sole ((v, n) ∷ retain (λ e. e.1 == h) l) ≡ some w =
        subst
          (λ b.
            sole (if b then (v, n) ∷ retain (λ e. e.1 == h) l else retain (λ e. e.1 == h) l)
            ≡ some w)
          c e in
      let q = (sole-cons (v, n) (retain (λ e. e.1 == h) l) w t).1 in
      let b : bytes_eq v w ≡ true = subst (λ k. bytes_eq v k ≡ true) q (bytes_eq_refl v) in
      rw b (ground (arith, votes-first v w n l u b))
  | inr c ↦
      let r : votes w l ≡ h = sole-votes h w l p u.1 (ground arith) in
      elim (Bool-cases (bytes_eq v w)) [
        | inl q ↦
            let z : votes v l ≡ 0 = votes-none v l u.0 in
            absurd (omega (arith, r, subst (λ k. votes k l ≡ 0) (bytes_eq→≡ v w q) z))
        | inr q ↦ rw q (omega (arith, r))
      ]
]

-- Where one value has more than half of the votes, no other count is as high.
others-lower : (n : ℕ) (l : Counts) → total l < n → retain (λ e. e.1 == n) l ≡ []
others-lower n [] p = refl
others-lower n ((v, m) ∷ l) p = elim (Bool-cases (m == n)) [
  | inl c ↦ absurd (ground arith)
  | inr c ↦ rw c (others-lower n l (omega (arith, p)))
]

majority-sole :
    (n : ℕ) (w : Bytes) (l : Counts)
    → IsUnique key l
    → votes w l ≡ n
    → total l < 2 * n
    → sole (retain (λ e. e.1 == n) l) ≡ some w
majority-sole n w [] u e p = absurd (omega (arith, e, p))
majority-sole n w ((v, m) ∷ l) u e p = elim (Bool-cases (bytes_eq v w)) [
  | inl c ↦
      let z = votes-first v w m l u c in
      let k : m ≡ n = ground (arith, z) in
      let b : (m == n) ≡ true = ground arith in
      let o : retain (λ e. e.1 == n) l ≡ [] = others-lower n l (omega (arith, p, k)) in
      rw (b, o) (ap some (bytes_eq→≡ v w c))
  | inr c ↦
      let k : votes w l ≡ n = ground arith in
      let b : (m == n) ≡ false = ground (arith, votes-le_total w l) in
      rw b (majority-sole n w l u.1 k (omega (arith, p)))
]

max_from-small : (a : ℕ) (l : Counts) → total l ≤ a → max_from a l ≡ a
unfolding max_from
max_from-small a [] p = refl
max_from-small a ((v, m) ∷ l) p =
    let e : max a m ≡ a = omega (arith, p) in rw e (max_from-small a l (omega (arith, p)))

max_from-majority :
    (n a : ℕ) (w : Bytes) (l : Counts)
    → IsUnique key l
    → votes w l ≡ n
    → a + total l < 2 * n
    → max_from a l ≡ n
unfolding max_from
max_from-majority n a w [] u e p = absurd (omega (arith, e, p))
max_from-majority n a w ((v, m) ∷ l) u e p = elim (Bool-cases (bytes_eq v w)) [
  | inl c ↦
      let z = votes-first v w m l u c in
      let k : m ≡ n = ground (arith, z) in
      let b : max a m ≡ m = omega (arith, k, p) in
      rw b (max_from-small m l (omega (arith, p, k)) ∙ k)
  | inr c ↦
      let k : votes w l ≡ n = ground arith in
      max_from-majority n (max a m) w l u.1 k (omega (arith, p))
]

max_zero : (n : ℕ) → max 0 n ≡ n
max_zero n = omega arith

not-ltb : (a b : ℕ) → b ≤ a → ltb a b ≡ false
not-ltb a b h = ground arith

choose_sound :
    (r : ℕ) (w : Bytes) (l : Counts) → 0 < r → IsUnique key l → choose r l ≡ some w → r ≤ votes w l
unfolding choose
choose_sound r w [] p u e = absurd (cc)
choose_sound r w ((v, n) ∷ l) p u e = elim (Bool-cases (ltb (max_from n l) r)) [
  | inl c ↦ absurd (ground arith)
  | inr c ↦
      let h : r ≤ max_from n l = ground arith in
      let s : sole (retain (λ e. e.1 == max_from n l) ((v, n) ∷ l)) ≡ some w =
        subst
          (λ b.
            (if b then none else sole (retain (λ e. e.1 == max_from n l) ((v, n) ∷ l))) ≡ some w)
          c e in
      omega (arith, h, sole-votes (max_from n l) w ((v, n) ∷ l) (omega (arith, p, h)) u s)
]

choose_complete :
    (r : ℕ) (w : Bytes) (l : Counts)
    → IsUnique key l
    → r ≤ votes w l
    → total l < 2 * votes w l
    → choose r l ≡ some w
unfolding choose
choose_complete r w [] u p q = absurd (omega (arith, q))
choose_complete r w ((v, n) ∷ l) u p q =
    let h = max_from-majority (votes w ((v, n) ∷ l)) 0 w ((v, n) ∷ l) u refl (omega (arith, q)) in
    let k : max_from n l ≡ votes w ((v, n) ∷ l) =
      subst (λ z. max_from z l ≡ votes w ((v, n) ∷ l)) (max_zero n) h in
    let f : ltb (votes w ((v, n) ∷ l)) r ≡ false = not-ltb (votes w ((v, n) ∷ l)) r p in
    subst (λ z. (if ltb z r then none else sole (retain (λ e. e.1 == z) ((v, n) ∷ l))) ≡ some w)
      (sym k)
      (subst
        (λ b.
          (if b then none else sole (retain (λ e. e.1 == votes w ((v, n) ∷ l)) ((v, n) ∷ l)))
          ≡ some w)
        (sym f) (majority-sole (votes w ((v, n) ∷ l)) w ((v, n) ∷ l) u refl q))

-- A value is chosen exactly if it occurs at least `minimum_votes` times and in more than half of
-- the values.
pub strict_quorum_value_iff :
    (values : List Bytes) (minimum_votes : ℕ) (w : Bytes)
    → (strict_quorum_value values minimum_votes ≡ some w)
      ↔ ((minimum_votes ≤ occurrences w values) × (length values < 2 * occurrences w values))
unfolding strict_quorum_value required_votes
strict_quorum_value_iff values m w =
    let u = tally-IsUnique [] values tt in
    let v = votes-tally w [] values in
    let t = total-tally [] values in
    (
      λ e.
          let s = choose_sound (required_votes values m) w (tally [] values) (omega arith) u e in
          (omega (arith, s, v), omega (arith, s, v)),
      λ h.
          choose_complete (required_votes values m) w (tally [] values) u
            (omega (arith, v, h.0, h.1)) (omega (arith, v, t, h.1)),
    )
