-- ===== src/Prelude/Unique.antt =====
-- Lists whose members have different keys, under the operations on lists that keep them so.
use Prim.Native.Nat.{ℕ, zero, suc}
use mathlib.Core.Path.{◌≡◌, refl, sym, subst}
use mathlib.Core.Logic.{◌≢◌, inl, inr}
use mathlib.Core.Bool.{Bool, true, false}
use mathlib.Core.List.{List, [], ◌∷◌, ◌++◌}
use native.Mathlib.Omega.{arith}
use auth_kademlia_rs.Prelude.Tests.{leb, if◌then◌else◌, holds, Bool-cases}
use auth_kademlia_rs.Prelude.Lists.{
  take, retain, any, remove_first, All, All-append, All-retain, All-take, All-remove_first,
}
use auth_kademlia_rs.Prelude.ByteStrings.{Bytes, bytes_eq, bytes_discrete}
use auth_kademlia_rs.Prelude.Sort.{insert_by, sort_by_key}

pub bytes_eq→≡ : (a b : Bytes) → bytes_eq a b ≡ true → a ≡ b
bytes_eq→≡ a b h =
    elim (bytes_discrete a b) as (λ d. holds d ≡ true → a ≡ b) [
      | yes p ↦ λ e. p
      | no p ↦ λ e. absurd (cc)
    ]
      h

pub bytes_eq→≢ : (a b : Bytes) → bytes_eq a b ≡ false → a ≢ b
bytes_eq→≢ a b h =
    elim (bytes_discrete a b) as (λ d. holds d ≡ false → a ≢ b) [
      | yes p ↦ λ e. absurd (cc)
      | no p ↦ λ e. p
    ]
      h

pub bytes_eq_refl : (a : Bytes) → bytes_eq a a ≡ true
bytes_eq_refl a = elim (bytes_discrete a a) as (λ d. holds d ≡ true) [
  | yes p ↦ refl
  | no p ↦ absurd (p refl)
]

module _ {A : Type 0} (key : A → Bytes) where
  abbrev pub IsUnique : List A → Type 0
  IsUnique [] = Unit {0}
  IsUnique (x ∷ xs) = All (λ y. key y ≢ key x) xs × IsUnique xs

  pub any-false-All :
      (k : Bytes) (l : List A) → any (λ y. bytes_eq (key y) k) l ≡ false → All (λ y. key y ≢ k) l
  any-false-All k [] h = tt
  any-false-All k (x ∷ l) h = elim (Bool-cases (bytes_eq (key x) k)) [
    | inl e ↦ absurd (ground arith)
    | inr e ↦ (bytes_eq→≢ (key x) k e, any-false-All k l (ground arith))
  ]

  pub IsUnique-snoc :
      (l : List A) (x : A) → IsUnique l → All (λ y. key y ≢ key x) l → IsUnique (l ++ x ∷ [])
  IsUnique-snoc [] x u h = (tt, tt)
  IsUnique-snoc (y ∷ l) x u h = (
    All-append (λ z. key z ≢ key y) l (x ∷ []) u.0 ((λ e. h.0 (sym e)), tt),
    IsUnique-snoc l x u.1 h.1,
  )

  pub IsUnique-retain : (p : A → Bool) (l : List A) → IsUnique l → IsUnique (retain p l)
  IsUnique-retain p [] u = tt
  IsUnique-retain p (x ∷ l) u =
      elim (p x) as (λ b. IsUnique (if b then x ∷ retain p l else retain p l)) [
        | true ↦ (All-retain (λ z. key z ≢ key x) p l u.0, IsUnique-retain p l u.1)
        | false ↦ IsUnique-retain p l u.1
      ]

  pub IsUnique-remove_first : (p : A → Bool) (l : List A) → IsUnique l → IsUnique (remove_first p l)
  IsUnique-remove_first p [] u = tt
  IsUnique-remove_first p (x ∷ l) u =
      elim (p x) as (λ b. IsUnique (if b then l else x ∷ remove_first p l)) [
        | true ↦ u.1
        | false ↦ (All-remove_first (λ z. key z ≢ key x) p l u.0, IsUnique-remove_first p l u.1)
      ]

  pub IsUnique-take : (n : ℕ) (l : List A) → IsUnique l → IsUnique (take n l)
  IsUnique-take zero l u = tt
  IsUnique-take (suc n) [] u = tt
  IsUnique-take (suc n) (x ∷ l) u = (All-take (λ z. key z ≢ key x) n l u.0, IsUnique-take n l u.1)

  -- The first match of a key is its only one.
  pub remove_first-All_ne :
      (k : Bytes) (l : List A)
      → IsUnique l
      → All (λ y. key y ≢ k) (remove_first (λ y. bytes_eq (key y) k) l)
  remove_first-All_ne k [] u = tt
  remove_first-All_ne k (x ∷ l) u = elim (Bool-cases (bytes_eq (key x) k)) [
    | inl e ↦ rw e (subst (λ z. All (λ y. key y ≢ z) l) (bytes_eq→≡ (key x) k e) u.0)
    | inr e ↦ rw e (bytes_eq→≢ (key x) k e, remove_first-All_ne k l u.1)
  ]

  module _ (rank : A → ℕ) where
    pub insert_by-All_any :
        (P : A → Type 0) (x : A) (l : List A) → P x → All P l → All P (insert_by rank x l)
    unfolding insert_by
    insert_by-All_any P x [] h p = (h, tt)
    insert_by-All_any P x (y ∷ l) h p = elim (Bool-cases (leb (rank x) (rank y))) [
      | inl e ↦ rw e (h, p)
      | inr e ↦ rw e (p.0, insert_by-All_any P x l h p.1)
    ]

    pub sort_by_key-All : (P : A → Type 0) (l : List A) → All P l → All P (sort_by_key rank l)
    unfolding sort_by_key
    sort_by_key-All P [] p = tt
    sort_by_key-All P (x ∷ l) p =
        insert_by-All_any P x (sort_by_key rank l) p.0 (sort_by_key-All P l p.1)

    insert_by-IsUnique :
        (x : A) (l : List A)
        → All (λ y. key y ≢ key x) l
        → IsUnique l
        → IsUnique (insert_by rank x l)
    unfolding insert_by
    insert_by-IsUnique x [] h u = (tt, tt)
    insert_by-IsUnique x (y ∷ l) h u = elim (Bool-cases (leb (rank x) (rank y))) [
      | inl e ↦ rw e (h, u)
      | inr e ↦ rw e (
        insert_by-All_any (λ z. key z ≢ key y) x l (λ q. h.0 (sym q)) u.0,
        insert_by-IsUnique x l h.1 u.1,
      )
    ]

    pub sort_by_key-IsUnique : (l : List A) → IsUnique l → IsUnique (sort_by_key rank l)
    unfolding sort_by_key
    sort_by_key-IsUnique [] u = tt
    sort_by_key-IsUnique (x ∷ l) u =
        insert_by-IsUnique x (sort_by_key rank l) (sort_by_key-All (λ y. key y ≢ key x) l u.0)
          (sort_by_key-IsUnique l u.1)
