-- ===== src/Prelude/Sort.antt =====
-- `sort_by_key`, and what "the k closest" of some candidates means.
use Prim.Native.Nat.{ℕ, zero, suc, ◌+◌, ◌≤◌, min}
use mathlib.Core.Path.{◌≡◌, refl}
use mathlib.Core.Logic.{inl, inr}
use mathlib.Core.List.{List, [], ◌∷◌, ◌++◌, Perm}
use mathlib.Core.List.Perm
use native.Mathlib.Omega.{arith}
use auth_kademlia_rs.Prelude.Tests.{leb, if◌then◌else◌, Bool-cases}
use auth_kademlia_rs.Prelude.Lists.{length, take, drop, All, length-take, take-append-drop}

module _ {A : Type 0} (key : A → ℕ) where
  unfoldable pub insert_by : A → List A → List A
  insert_by x [] = x ∷ []
  insert_by x (y ∷ ys) = if leb (key x) (key y) then x ∷ y ∷ ys else y ∷ insert_by x ys

  -- Equal keys keep their order.
  unfoldable pub sort_by_key : List A → List A
  unfolding insert_by
  sort_by_key [] = []
  sort_by_key (x ∷ xs) = insert_by x (sort_by_key xs)

  abbrev pub IsSorted : List A → Type 0
  IsSorted [] = Unit {0}
  IsSorted (x ∷ xs) = All (λ y. key x ≤ key y) xs × IsSorted xs

  All-le_trans : (a b : ℕ) (l : List A) → a ≤ b → All (λ y. b ≤ key y) l → All (λ y. a ≤ key y) l
  All-le_trans a b [] h p = tt
  All-le_trans a b (y ∷ l) h p = (omega (arith, p.0), All-le_trans a b l h p.1)

  insert_by-All :
      (a : ℕ) (x : A) (l : List A)
      → a ≤ key x
      → All (λ y. a ≤ key y) l
      → All (λ y. a ≤ key y) (insert_by x l)
  unfolding insert_by
  insert_by-All a x [] h p = (h, tt)
  insert_by-All a x (y ∷ l) h p = elim (Bool-cases (leb (key x) (key y))) [
    | inl e ↦ rw e (h, p)
    | inr e ↦ rw e (p.0, insert_by-All a x l h p.1)
  ]

  insert_by-IsSorted : (x : A) (l : List A) → IsSorted l → IsSorted (insert_by x l)
  unfolding insert_by
  insert_by-IsSorted x [] s = (tt, tt)
  insert_by-IsSorted x (y ∷ l) s = elim (Bool-cases (leb (key x) (key y))) [
    | inl e ↦
        let h : key x ≤ key y = ground arith in rw e ((h, All-le_trans (key x) (key y) l h s.0), s)
    | inr e ↦ rw e (insert_by-All (key y) x l (ground arith) s.0, insert_by-IsSorted x l s.1)
  ]

  pub sort_by_key-IsSorted : (l : List A) → IsSorted (sort_by_key l)
  unfolding sort_by_key
  sort_by_key-IsSorted [] = tt
  sort_by_key-IsSorted (x ∷ l) = insert_by-IsSorted x (sort_by_key l) (sort_by_key-IsSorted l)

  insert_by-perm : (x : A) (l : List A) → Perm (x ∷ l) (insert_by x l)
  unfolding insert_by
  insert_by-perm x [] = Perm.refl _
  insert_by-perm x (y ∷ l) = elim (Bool-cases (leb (key x) (key y))) [
    | inl e ↦ rw e (Perm.refl _)
    | inr e ↦ rw e (Perm.trans (Perm.swap y x l) (Perm.cons y (insert_by-perm x l)))
  ]

  pub sort_by_key-perm : (l : List A) → Perm l (sort_by_key l)
  unfolding sort_by_key
  sort_by_key-perm [] = Perm.refl _
  sort_by_key-perm (x ∷ l) =
      Perm.trans (Perm.cons x (sort_by_key-perm l)) (insert_by-perm x (sort_by_key l))

  -- `result` holds the `k` candidates of the least keys, in ascending order.
  pub record IsClosest (k : ℕ) (candidates result : List A) : Type 0 where
    pub rest : List A
    pub perm : Perm candidates (result ++ rest)
    pub closer : All (λ x. All (λ y. key x ≤ key y) rest) result
    pub sorted : IsSorted result
    pub size : length result ≡ min k (length candidates)

  All-drop : (P : A → Type 0) (k : ℕ) (l : List A) → All P l → All P (drop k l)
  All-drop P zero l h = h
  All-drop P (suc k) [] h = tt
  All-drop P (suc k) (x ∷ l) h = All-drop P k l h.1

  All-take' : (P : A → Type 0) (k : ℕ) (l : List A) → All P l → All P (take k l)
  All-take' P zero l h = tt
  All-take' P (suc k) [] h = tt
  All-take' P (suc k) (x ∷ l) h = (h.0, All-take' P k l h.1)

  take-le-drop :
      (k : ℕ) (l : List A) → IsSorted l → All (λ x. All (λ y. key x ≤ key y) (drop k l)) (take k l)
  take-le-drop zero l s = tt
  take-le-drop (suc k) [] s = tt
  take-le-drop (suc k) (x ∷ l) s = (All-drop (λ y. key x ≤ key y) k l s.0, take-le-drop k l s.1)

  pub take-IsSorted : (k : ℕ) (l : List A) → IsSorted l → IsSorted (take k l)
  take-IsSorted zero l s = tt
  take-IsSorted (suc k) [] s = tt
  take-IsSorted (suc k) (x ∷ l) s = (All-take' (λ y. key x ≤ key y) k l s.0, take-IsSorted k l s.1)

  length-insert_by : (x : A) (l : List A) → length (insert_by x l) ≡ length l + 1
  unfolding insert_by
  length-insert_by x [] = omega arith
  length-insert_by x (y ∷ l) = ground (arith, length-insert_by x l)

  pub length-sort_by_key : (l : List A) → length (sort_by_key l) ≡ length l
  unfolding sort_by_key
  length-sort_by_key [] = refl
  length-sort_by_key (x ∷ l) =
      omega (arith, length-insert_by x (sort_by_key l), length-sort_by_key l)

  -- Sorting and then truncating gives the closest.
  pub take-sort_by_key-IsClosest : (k : ℕ) (l : List A) → IsClosest k l (take k (sort_by_key l))
  take-sort_by_key-IsClosest k l = record {
    rest = drop k (sort_by_key l);
    perm = rw (take-append-drop k (sort_by_key l)) (sort_by_key-perm l);
    closer = take-le-drop k (sort_by_key l) (sort_by_key-IsSorted l);
    sorted = take-IsSorted k (sort_by_key l) (sort_by_key-IsSorted l);
    size = omega (arith, length-take k (sort_by_key l), length-sort_by_key l);
  }
