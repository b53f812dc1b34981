-- ===== src/Storage/Reads.antt =====
-- src/storage.rs: what a reader sees after each method that writes.
use auth_kademlia_rs.Prelude.{
  ℕ, ◌≤◌, not, map, retain, List, [], ◌∷◌, Bool-cases, ◌≡◌, ◌≢◌, ◌↔◌, refl, inl, inr, ite, Option,
  none, some, arith, Bytes, bytes_discrete, length, if◌then◌else◌, Option-cases,
}
use auth_kademlia_rs.Prelude.KeyMap.{KeyMap, IsKeyMap}
use auth_kademlia_rs.Prelude.KeyMap.Assoc.{lookup-keep}
use mathlib.Core.Option
use mathlib.Core.List.{lookup}
use auth_kademlia_rs.Storage.{
  Slot, conflict, capacity_exceeded, replace_value, is_expired, Store, write_slot, insert_vacant,
  insert_occupied, set, insert_if_absent, get, StorageWriteStatus, prune_expired, iter_all,
  key_value, live_entry,
}

module _ (m : KeyMap Bytes Slot) where
  -- What a read at `t` finds of a value written at `now`.
  pub fresh : Store m → ℕ → ℕ → Bytes → Option Bytes
  fresh s t now value = if is_expired s t now then none else some value

  -- The reads after a write of `key` that ended in `status`.
  pub read_after : Store m → StorageWriteStatus → ℕ → Bytes → Bytes → ℕ → Bytes → Option Bytes
  unfolding fresh
  read_after s capacity_exceeded now key value t q = get m s t q
  read_after s conflict now key value t q = get m s t q
  read_after s _ now key value t q = ite (bytes_discrete q key) (fresh s t now value) (get m s t q)

module _ {m : KeyMap Bytes Slot} (laws : IsKeyMap bytes_discrete m) where
  vacant_reads :
      (s : Store m) (now : ℕ) (key value : Bytes) (t : ℕ) (q : Bytes)
      → get m (insert_vacant m s now key value).0 t q
        ≡ read_after m s (insert_vacant m s now key value).1 now key value t q
  unfolding insert_vacant read_after get is_expired
  vacant_reads s now key value t q = ground (arith, laws.get-insert s.slots key q (value, now))

  replace_reads :
      (s : Store m) (now : ℕ) (key value : Bytes) (slot : Slot) (t : ℕ) (q : Bytes)
      → let r = write_slot m key (replace_value s now (length slot.0) slot value) in
        get m r.0 t q ≡ read_after m s r.1 now key value t q
  unfolding replace_value read_after get is_expired
  replace_reads s now key value slot t q = ground (
    arith,
    laws.get-insert s.slots key q (value, now),
    laws.get-insert s.slots key q (slot.0, now),
  )

  -- After `set`, by the status that it returned: a value stored, or found there already, is what
  -- any later read of the key finds until its lifetime has passed since the call; a write refused
  -- for lack of space changes no read; and no other key is touched.
  pub get-set :
      (s : Store m) (now : ℕ) (key value : Bytes) (t : ℕ) (q : Bytes)
      → get m (set m s now key value).0 t q
        ≡ read_after m s (set m s now key value).1 now key value t q
  unfolding set
  get-set s now key value t q = elim (Option-cases (m.get s.slots key)) [
    | inl e ↦ rw (e, set) (vacant_reads s now key value t q)
    | inr (slot, e) ↦ rw (e, set) (replace_reads s now key value slot t q)
  ]

  occupied_reads :
      (s : Store m) (now : ℕ) (key value : Bytes) (slot : Slot) (t : ℕ) (q : Bytes)
      → get m (insert_occupied m s now key value slot).0 t q
        ≡ read_after m s (insert_occupied m s now key value slot).1 now key value t q
  unfolding insert_occupied read_after get is_expired
  occupied_reads s now key value slot t q = elim (Bool-cases (is_expired s now slot.1)) [
    | inl dead ↦ rw dead (replace_reads s now key value slot t q)
    | inr alive ↦ rw alive (ground (arith, laws.get-insert s.slots key q (slot.0, now)))
  ]

  -- After `insert_if_absent`, by the status that it returned, reads are as after `set`; a conflict
  -- changes no read.
  pub get-insert_if_absent :
      (s : Store m) (now : ℕ) (key value : Bytes) (t : ℕ) (q : Bytes)
      → get m (insert_if_absent m s now key value).0 t q
        ≡ read_after m s (insert_if_absent m s now key value).1 now key value t q
  unfolding insert_if_absent
  get-insert_if_absent s now key value t q = elim (Option-cases (m.get s.slots key)) [
    | inl e ↦ rw (e, insert_if_absent) (vacant_reads s now key value t q)
    | inr (slot, e) ↦ rw (e, insert_if_absent) (occupied_reads s now key value slot t q)
  ]

  -- Pruning changes no read from its own instant on.
  pub get-prune_expired :
      (s : Store m) (now t : ℕ) (q : Bytes)
      → now ≤ t
      → get m (prune_expired m s now).0 t q ≡ get m s t q
  unfolding prune_expired get is_expired
  get-prune_expired s now t q h = ground (arith, laws.get-retain (live_entry m s now) s.slots q)

  live_lookup :
      (s : Store m) (now : ℕ) (q : Bytes) (l : List (Bytes × Slot))
      → lookup bytes_discrete q (map key_value l)
        ≡ Option.map (λ slot. slot.0) (lookup bytes_discrete q l)
  unfolding lookup
  live_lookup s now q [] = refl
  live_lookup s now q (e ∷ l) = ground (arith, live_lookup s now q l)

  -- `iter_all` lists under each key what `get` reads at that instant, and nothing else.
  pub lookup-iter_all :
      (s : Store m) (now : ℕ) (q : Bytes)
      → lookup bytes_discrete q (iter_all m s now) ≡ get m s now q
  unfolding iter_all get
  lookup-iter_all s now q = ground (
    arith,
    live_lookup s now q (retain (λ e. not (is_expired s now e.1.1)) (m.entries s.slots)),
    lookup-keep bytes_discrete (live_entry m s now) q (m.entries s.slots)
        (laws.entries-AreDistinct s.slots),
    laws.get-entries s.slots q,
  )

module _ (m : KeyMap Bytes Slot) where
  -- `insert_if_absent` answers `conflict` exactly when the key holds another live value, and then
  -- leaves the store as it was.
  pub insert_if_absent-conflict_iff :
      (s : Store m) (now : ℕ) (key value : Bytes)
      → (insert_if_absent m s now key value ≡ (s, conflict))
        ↔ ((v : Bytes) × (get m s now key ≡ some v) × (v ≢ value))
  unfolding insert_if_absent insert_occupied insert_vacant replace_value get
  insert_if_absent-conflict_iff s now key value = (λ e. refused e, λ r. ground arith)
    where
      refused :
          insert_if_absent m s now key value ≡ (s, conflict)
          → (v : Bytes) × (get m s now key ≡ some v) × (v ≢ value)
      refused e = elim (Option-cases (m.get s.slots key)) [
        | inl miss ↦ absurd (ground arith)
        | inr (slot, hit) ↦ (slot.0, ground arith, ground arith)
      ]
