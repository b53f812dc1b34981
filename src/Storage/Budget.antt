-- ===== src/Storage/Budget.antt =====
-- src/storage.rs: the byte budget, over every sequence of writes.
use mathlib.Core.Logic.{∥∥₁_elim}
use mathlib.Core.List.{Perm, Permᴰ, lookup}
use native.Mathlib.Nat.{ℕ_set}
use auth_kademlia_rs.Prelude.{
  ℕ, ◌+◌, ◌≤◌, ◌<◌, ◌≡◌, refl, ◌∙◌, ap, inl, inr, Bool, not, Option, none, some, List, [], ◌∷◌,
  arith, Bytes, bytes_discrete, length, retain, remove_first, holds, Bool-cases, Option-cases,
}
use auth_kademlia_rs.Prelude.KeyMap.{KeyMap, IsKeyMap}
use auth_kademlia_rs.Storage.{
  Slot, usize_mod, record_bytes, total_bytes, replace_value, is_expired, Store, write_slot,
  insert_vacant, set, insert_occupied, insert_if_absent, ℤ, with_max_storage_bytes, prune_expired,
  expired_entries, live_entry,
}

total-permᴰ : {xs ys : List (Bytes × Slot)} → Permᴰ xs ys → total_bytes xs ≡ total_bytes ys
unfolding total_bytes
total-permᴰ Permᴰ.nil = refl
total-permᴰ (Permᴰ.cons e p) = ground (arith, total-permᴰ p)
total-permᴰ (Permᴰ.swap e f) = ground arith
total-permᴰ (Permᴰ.trans p q) = total-permᴰ p ∙ total-permᴰ q

pub total-perm : {xs ys : List (Bytes × Slot)} → Perm xs ys → total_bytes xs ≡ total_bytes ys
total-perm p = ∥∥₁_elim p (ℕ_set _ _) total-permᴰ

-- The bytes under a key, if any.
abbrev bytes_at : Bytes → Option Slot → ℕ
bytes_at key none = 0
bytes_at key (some slot) = record_bytes key slot.0

total-remove_first :
    (key : Bytes) (l : List (Bytes × Slot))
    → total_bytes (remove_first (λ e. holds (bytes_discrete key e.0)) l)
        + bytes_at key (lookup bytes_discrete key l)
      ≡ total_bytes l
unfolding total_bytes lookup
total-remove_first key [] = refl
total-remove_first key (e ∷ l) = ground (arith, total-remove_first key l)

total-retain :
    (p : Bytes × Slot → Bool) (l : List (Bytes × Slot))
    → total_bytes (retain (λ e. not (p e)) l) + total_bytes (retain p l) ≡ total_bytes l
unfolding total_bytes
total-retain p [] = refl
total-retain p (e ∷ l) = ground (arith, total-retain p l)

module _ {m : KeyMap Bytes Slot} (laws : IsKeyMap bytes_discrete m) where
  -- A write under a key trades the bytes of the old entry for those of the new one.
  pub total-insert :
      (s : m.Map) (key : Bytes) (slot : Slot)
      → total_bytes (m.entries (m.insert s key slot)) + bytes_at key (m.get s key)
        ≡ total_bytes (m.entries s) + record_bytes key slot.0
  unfolding total_bytes
  total-insert s key slot = omega (
    arith,
    total-perm (laws.insert-perm s key slot),
    total-remove_first key (m.entries s),
    ap (bytes_at key) (laws.get-entries s key),
  )

  total-prune :
      (s : Store m) (now : ℕ)
      → total_bytes (m.entries (m.retain_entries (live_entry m s now) s.slots))
          + total_bytes (expired_entries m s now)
        ≡ total_bytes (m.entries s.slots)
  total-prune s now = omega (
    arith,
    total-perm (laws.retain-perm (live_entry m s now) s.slots),
    total-retain (λ e. is_expired s now e.1.1) (m.entries s.slots),
  )

-- The counter is the bytes of the entries held, and stays within the budget.
pub record IsAccounted (m : KeyMap Bytes Slot) (s : Store m) : Type 0 where
  pub exact : s.current_storage_bytes ≡ total_bytes (m.entries s.slots)
  pub within : s.current_storage_bytes ≤ s.max_storage_bytes
  pub fits : s.max_storage_bytes < usize_mod

module _ {m : KeyMap Bytes Slot} (laws : IsKeyMap bytes_discrete m) where
  insert_vacant-IsAccounted :
      (s : Store m) (now : ℕ) (key value : Bytes)
      → m.get s.slots key ≡ none
      → IsAccounted m s
      → IsAccounted m (insert_vacant m s now key value).0
  unfolding insert_vacant
  insert_vacant-IsAccounted s now key value e v =
      ground (arith, total-insert laws s.slots key (value, now))

  replace-IsAccounted :
      (s : Store m) (now : ℕ) (key value : Bytes) (slot : Slot)
      → m.get s.slots key ≡ some slot
      → IsAccounted m s
      → IsAccounted m (write_slot m key (replace_value s now (length slot.0) slot value)).0
  unfolding replace_value
  replace-IsAccounted s now key value slot e v = ground (
    arith,
    total-insert laws s.slots key (value, now),
    total-insert laws s.slots key (slot.0, now),
  )

  pub set-IsAccounted :
      (s : Store m) (now : ℕ) (key value : Bytes)
      → IsAccounted m s
      → IsAccounted m (set m s now key value).0
  unfolding set
  set-IsAccounted s now key value v = elim (Option-cases (m.get s.slots key)) [
    | inl e ↦ rw (e, set) (insert_vacant-IsAccounted s now key value e v)
    | inr (slot, e) ↦ rw (e, set) (replace-IsAccounted s now key value slot e v)
  ]

  occupied-IsAccounted :
      (s : Store m) (now : ℕ) (key value : Bytes) (slot : Slot)
      → m.get s.slots key ≡ some slot
      → IsAccounted m s
      → IsAccounted m (insert_occupied m s now key value slot).0
  unfolding insert_occupied
  occupied-IsAccounted s now key value slot e v = elim (Bool-cases (is_expired s now slot.1)) [
    | inl dead ↦ rw dead (replace-IsAccounted s now key value slot e v)
    | inr alive ↦ rw alive (ground (arith, total-insert laws s.slots key (slot.0, now)))
  ]

  pub insert_if_absent-IsAccounted :
      (s : Store m) (now : ℕ) (key value : Bytes)
      → IsAccounted m s
      → IsAccounted m (insert_if_absent m s now key value).0
  unfolding insert_if_absent
  insert_if_absent-IsAccounted s now key value v = elim (Option-cases (m.get s.slots key)) [
    | inl e ↦ rw (e, insert_if_absent) (insert_vacant-IsAccounted s now key value e v)
    | inr (slot, e) ↦ rw (e, insert_if_absent) (occupied-IsAccounted s now key value slot e v)
  ]

  pub prune_expired-IsAccounted :
      (s : Store m) (now : ℕ) → IsAccounted m s → IsAccounted m (prune_expired m s now).0
  unfolding prune_expired
  prune_expired-IsAccounted s now v = ground (arith, total-prune laws s now)

-- One call of a method that writes.
pub data Write : Type 0 where
  sets inserts : ℕ → Bytes → Bytes → Write
  prunes : ℕ → Write

module _ (m : KeyMap Bytes Slot) where
  unfoldable pub write : Store m → Write → Store m
  write s (sets now key value) = (set m s now key value).0
  write s (inserts now key value) = (insert_if_absent m s now key value).0
  write s (prunes now) = (prune_expired m s now).0

  unfoldable pub writes : Store m → List Write → Store m
  writes s [] = s
  writes s (w ∷ ws) = writes (write s w) ws

module _ {m : KeyMap Bytes Slot} (laws : IsKeyMap bytes_discrete m) where
  write-IsAccounted : (s : Store m) (w : Write) → IsAccounted m s → IsAccounted m (write m s w)
  unfolding write
  write-IsAccounted s (sets now key value) v = set-IsAccounted laws s now key value v
  write-IsAccounted s (inserts now key value) v =
      insert_if_absent-IsAccounted laws s now key value v
  write-IsAccounted s (prunes now) v = prune_expired-IsAccounted laws s now v

  -- Every method that writes keeps the accounts, whatever the order of the calls: the counter is
  -- the sum of the key and value bytes of the entries held, it is at most the maximum, and the
  -- subtractions of `release_bytes` never wrap.
  pub writes-IsAccounted :
      (s : Store m) (ws : List Write) → IsAccounted m s → IsAccounted m (writes m s ws)
  unfolding writes
  writes-IsAccounted s [] v = v
  writes-IsAccounted s (w ∷ ws) v = writes-IsAccounted (write m s w) ws (write-IsAccounted s w v)

  new-IsAccounted :
      (ttl : ℤ) (max : ℕ) → max < usize_mod → IsAccounted m (with_max_storage_bytes m ttl max)
  unfolding with_max_storage_bytes total_bytes
  new-IsAccounted ttl max h = record {
    exact = rw laws.entries-empty;
    within = omega arith;
    fits = h;
  }

  -- From a new store, after any sequence of writes and prunes, the bytes of the entries held are
  -- what the counter says, and stay within the budget.
  pub new-writes-IsAccounted :
      (ttl : ℤ) (max : ℕ) (ws : List Write)
      → max < usize_mod
      → IsAccounted m (writes m (with_max_storage_bytes m ttl max) ws)
  new-writes-IsAccounted ttl max ws h = writes-IsAccounted _ ws (new-IsAccounted ttl max h)
