-- ===== src/Prelude/KeyMap/Assoc.antt =====
-- An association list with one binding for each key meets the laws of `IsKeyMap`.
use mathlib.Core.Path.{◌≡◌, refl}
use mathlib.Core.Logic.{◌≢◌, ite}
use mathlib.Core.Bool.{Bool}
use mathlib.Core.List.{List, [], ◌∷◌, lookup}
use mathlib.Core.List.Perm
use mathlib.Core.Option.{none, some}
use native.Mathlib.Omega.{arith}
use auth_kademlia_rs.Prelude.Tests.{holds}
use auth_kademlia_rs.Prelude.Lists.{retain, remove_first}
use auth_kademlia_rs.Prelude.KeyMap.{KeyMap, keep_if, AreDistinct, IsKeyMap}

module _ {K V : Type 0} (dec : Discrete K) where
  abbrev pub drop_key : K → List (K × V) → List (K × V)
  drop_key k = remove_first (λ e. holds (dec k e.0))

  abbrev pub keep : (K → V → Bool) → List (K × V) → List (K × V)
  keep p = retain (λ e. p e.0 e.1)

  lookup-drop_key_ne :
      (k q : K) (l : List (K × V)) → q ≢ k → lookup dec q (drop_key k l) ≡ lookup dec q l
  unfolding lookup
  lookup-drop_key_ne k q [] h = refl
  lookup-drop_key_ne k q (e ∷ l) h = ground (arith, lookup-drop_key_ne k q l)

  drop_key-none :
      (k q : K) (l : List (K × V)) → lookup dec q l ≡ none → lookup dec q (drop_key k l) ≡ none
  unfolding lookup
  drop_key-none k q [] h = refl
  drop_key-none k q (e ∷ l) h = ground (arith, drop_key-none k q l)

  pub drop_key_self :
      (k : K) (l : List (K × V)) → AreDistinct dec l → lookup dec k (drop_key k l) ≡ none
  unfolding lookup
  drop_key_self k [] d = refl
  drop_key_self k (e ∷ l) d = ground (arith, drop_key_self k l d.1)

  pub drop_key-AreDistinct :
      (k : K) (l : List (K × V)) → AreDistinct dec l → AreDistinct dec (drop_key k l)
  drop_key-AreDistinct k [] d = tt
  drop_key-AreDistinct k (e ∷ l) d =
      ground (arith, drop_key-AreDistinct k l d.1, drop_key-none k e.0 l)

  keep-none :
      (p : K → V → Bool) (q : K) (l : List (K × V))
      → lookup dec q l ≡ none
      → lookup dec q (keep p l) ≡ none
  unfolding lookup
  keep-none p q [] h = refl
  keep-none p q (e ∷ l) h = ground (arith, keep-none p q l)

  pub keep-AreDistinct :
      (p : K → V → Bool) (l : List (K × V)) → AreDistinct dec l → AreDistinct dec (keep p l)
  keep-AreDistinct p [] d = tt
  keep-AreDistinct p (e ∷ l) d = ground (arith, keep-AreDistinct p l d.1, keep-none p e.0 l)

  pub lookup-keep :
      (p : K → V → Bool) (q : K) (l : List (K × V))
      → AreDistinct dec l
      → lookup dec q (keep p l) ≡ keep_if p q (lookup dec q l)
  unfolding lookup
  lookup-keep p q [] d = refl
  lookup-keep p q (e ∷ l) d = ground (arith, lookup-keep p q l d.1, keep-none p q l)

  abbrev pub assoc : KeyMap K V
  assoc = record {
    Map = (l : List (K × V)) × AreDistinct dec l;
    empty = ([], tt);
    get = λ m k. lookup dec k m.0;
    insert = λ m k v.
        ((k, v) ∷ drop_key k m.0, (drop_key_self k m.0 m.1, drop_key-AreDistinct k m.0 m.1));
    retain_entries = λ p m. (keep p m.0, keep-AreDistinct p m.0 m.1);
    entries = λ m. m.0;
  }

  get-insert_assoc :
      (k q : K) (v : V) (l : List (K × V))
      → lookup dec q ((k, v) ∷ drop_key k l) ≡ ite (dec q k) (some v) (lookup dec q l)
  unfolding lookup
  get-insert_assoc k q v l = ground (arith, lookup-drop_key_ne k q l)

  pub assoc-IsKeyMap : IsKeyMap dec assoc
  assoc-IsKeyMap = record {
    entries-empty = refl;
    get-entries = λ s k. refl;
    entries-AreDistinct = λ s. s.1;
    get-insert = λ s k q v. get-insert_assoc k q v s.0;
    get-retain = λ p s q. lookup-keep p q s.0 s.1;
    insert-perm = λ s k v. Perm.refl _;
    retain-perm = λ p s. Perm.refl _;
  }
