-- ===== src/Prelude/KeyMap.antt =====
-- The map of the crate `dashmap`, through the methods that the program calls. The crate is not part
-- of the repository, so the map is a parameter; its laws are what its documentation says of
-- `get`, `insert`, `retain`, `iter` and `len`.
pub mod Assoc
use mathlib.Core.Path.{◌≡◌}
use mathlib.Core.Logic.{ite}
use mathlib.Core.Bool.{Bool}
use mathlib.Core.List.{List, [], ◌∷◌, Perm, lookup}
use mathlib.Core.Option.{Option, none, some}
use auth_kademlia_rs.Prelude.Tests.{if◌then◌else◌, holds}
use auth_kademlia_rs.Prelude.Lists.{retain, remove_first}

pub record KeyMap (K V : Type 0) : Type 1 where
  pub Map : Type 0
  pub empty : Map
  pub get : Map → K → Option V
  pub insert : Map → K → V → Map
  pub retain_entries : (K → V → Bool) → Map → Map
  pub entries : Map → List (K × V)

-- What `retain` leaves of a key's binding.
abbrev pub keep_if : {K V : Type 0} → (K → V → Bool) → K → Option V → Option V
keep_if p k none = none
keep_if p k (some v) = if p k v then some v else none

-- Each key is bound once.
abbrev pub AreDistinct : {K V : Type 0} → Discrete K → List (K × V) → Type 0
AreDistinct dec [] = Unit {0}
AreDistinct dec (e ∷ l) = (lookup dec e.0 l ≡ none) × AreDistinct dec l

pub record IsKeyMap {K V : Type 0} (dec : Discrete K) (m : KeyMap K V) : Type 0 where
  pub entries-empty : m.entries m.empty ≡ []
  pub get-entries : (s : m.Map) (k : K) → m.get s k ≡ lookup dec k (m.entries s)
  pub entries-AreDistinct : (s : m.Map) → AreDistinct dec (m.entries s)
  pub get-insert :
      (s : m.Map) (k q : K) (v : V) → m.get (m.insert s k v) q ≡ ite (dec q k) (some v) (m.get s q)
  pub get-retain :
      (p : K → V → Bool) (s : m.Map) (q : K)
      → m.get (m.retain_entries p s) q ≡ keep_if p q (m.get s q)
  pub insert-perm :
      (s : m.Map) (k : K) (v : V)
      → Perm
          (m.entries (m.insert s k v))
          ((k, v) ∷ remove_first (λ e. holds (dec k e.0)) (m.entries s))
  pub retain-perm :
      (p : K → V → Bool) (s : m.Map)
      → Perm (m.entries (m.retain_entries p s)) (retain (λ e. p e.0 e.1) (m.entries s))
