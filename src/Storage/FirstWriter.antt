-- ===== src/Storage/FirstWriter.antt =====
-- src/storage.rs: while a value lives, no `insert_if_absent` replaces it, whatever is written to
-- other keys and whatever is pruned meanwhile.
use auth_kademlia_rs.Prelude.{
  ℕ, ◌≤◌, ◌≡◌, refl, sym, ◌∙◌, ◌≢◌, inl, inr, false, some, List, [], ◌∷◌, arith, Bool-cases,
  Option-cases, Bytes, bytes_eq, bytes_discrete, length, All,
}
use auth_kademlia_rs.Prelude.KeyMap.{KeyMap, IsKeyMap}
use auth_kademlia_rs.Storage.{
  Slot, ℤ, replace_value, Store, write_slot, insert_vacant, insert_occupied, set, insert_if_absent,
  get, is_expired, prune_expired, live_entry,
}
use auth_kademlia_rs.Storage.Budget.{Write, sets, inserts, prunes, write, writes}

-- A call that comes before `last`, not before `first`, and is no `set` of `key`.
abbrev pub IsTimely : Bytes → ℕ → ℕ → Write → Type 0
IsTimely key first last (sets now k v) = k ≢ key
IsTimely key first last (inserts now k v) = (first ≤ now) × (now ≤ last)
IsTimely key first last (prunes now) = now ≤ last

module _ (m : KeyMap Bytes Slot) where
  -- `key` is bound to `v`, written at `first` or refreshed since.
  pub record IsHeld (s : Store m) (ttl : ℤ) (key v : Bytes) (first : ℕ) : Type 0 where
    pub since : ℕ
    pub found : m.get s.slots key ≡ some (v, since)
    pub later : first ≤ since
    pub same_ttl : s.ttl ≡ ttl

module _ {m : KeyMap Bytes Slot} (laws : IsKeyMap bytes_discrete m) where
  vacant-IsHeld :
      (s : Store m) (ttl : ℤ) (now : ℕ) (k value key v : Bytes) (first : ℕ)
      → k ≢ key
      → IsHeld m s ttl key v first
      → IsHeld m (insert_vacant m s now k value).0 ttl key v first
  unfolding insert_vacant
  vacant-IsHeld s ttl now k value key v first ne h = record {
    since = h.since;
    found = ground (arith, laws.get-insert s.slots k key (value, now));
    later = h.later;
    same_ttl = ground arith;
  }

  replace-IsHeld :
      (s : Store m) (ttl : ℤ) (now : ℕ) (k value key v : Bytes) (first : ℕ) (slot : Slot)
      → k ≢ key
      → IsHeld m s ttl key v first
      → IsHeld m (write_slot m k (replace_value s now (length slot.0) slot value)).0 ttl key v first
  unfolding replace_value
  replace-IsHeld s ttl now k value key v first slot ne h = record {
    since = h.since;
    found = ground (
      arith,
      laws.get-insert s.slots k key (value, now),
      laws.get-insert s.slots k key (slot.0, now),
    );
    later = h.later;
    same_ttl = ground arith;
  }

  set-IsHeld :
      (s : Store m) (ttl : ℤ) (now : ℕ) (k value key v : Bytes) (first : ℕ)
      → k ≢ key
      → IsHeld m s ttl key v first
      → IsHeld m (set m s now k value).0 ttl key v first
  unfolding set
  set-IsHeld s ttl now k value key v first ne h = elim (Option-cases (m.get s.slots k)) [
    | inl e ↦ rw (e, set) (vacant-IsHeld s ttl now k value key v first ne h)
    | inr (slot, e) ↦ rw (e, set) (replace-IsHeld s ttl now k value key v first slot ne h)
  ]

  occupied-IsHeld :
      (s : Store m) (ttl : ℤ) (now : ℕ) (k value key v : Bytes) (first : ℕ) (slot : Slot)
      → k ≢ key
      → IsHeld m s ttl key v first
      → IsHeld m (insert_occupied m s now k value slot).0 ttl key v first
  unfolding insert_occupied
  occupied-IsHeld s ttl now k value key v first slot ne h =
      elim (Bool-cases (is_expired s now slot.1)) [
        | inl dead ↦ rw dead (replace-IsHeld s ttl now k value key v first slot ne h)
        | inr alive ↦ rw alive (record {
          since = h.since;
          found = ground (arith, laws.get-insert s.slots k key (slot.0, now));
          later = h.later;
          same_ttl = ground arith;
        })
      ]

  insert_ne-IsHeld :
      (s : Store m) (ttl : ℤ) (now : ℕ) (k value key v : Bytes) (first : ℕ)
      → k ≢ key
      → IsHeld m s ttl key v first
      → IsHeld m (insert_if_absent m s now k value).0 ttl key v first
  unfolding insert_if_absent
  insert_ne-IsHeld s ttl now k value key v first ne h = elim (Option-cases (m.get s.slots k)) [
    | inl e ↦ rw (e, insert_if_absent) (vacant-IsHeld s ttl now k value key v first ne h)
    | inr (slot, e) ↦
        rw (e, insert_if_absent) (occupied-IsHeld s ttl now k value key v first slot ne h)
  ]

  -- An entry that lives at `last` lives before, and so does one written later.
  alive_before :
      (s : Store m) (last first now since : ℕ)
      → is_expired s last first ≡ false
      → now ≤ last
      → first ≤ since
      → is_expired s now since ≡ false
  unfolding is_expired
  alive_before s last first now since e p q = ground arith

  insert_self-IsHeld :
      (s : Store m) (ttl : ℤ) (now : ℕ) (key value v : Bytes) (first : ℕ)
      (h : IsHeld m s ttl key v first)
      → is_expired s now h.since ≡ false
      → first ≤ now
      → IsHeld m (insert_if_absent m s now key value).0 ttl key v first
  unfolding insert_if_absent insert_occupied
  insert_self-IsHeld s ttl now key value v first h alive p =
      rw (h.found, insert_if_absent, alive)
        (elim (Bool-cases (bytes_eq v value)) [
          | inl same ↦ rw same (record {
            since = now;
            found = ground (arith, laws.get-insert s.slots key key (v, now));
            later = p;
            same_ttl = h.same_ttl;
          })
          | inr other ↦ rw other h
        ])

  prune-IsHeld :
      (s : Store m) (ttl : ℤ) (now : ℕ) (key v : Bytes) (first : ℕ) (h : IsHeld m s ttl key v first)
      → is_expired s now h.since ≡ false
      → IsHeld m (prune_expired m s now).0 ttl key v first
  unfolding prune_expired
  prune-IsHeld s ttl now key v first h alive = record {
    since = h.since;
    found = ground (arith, laws.get-retain (live_entry m s now) s.slots key);
    later = h.later;
    same_ttl = ground arith;
  }

  write-IsHeld :
      (s : Store m) (ttl : ℤ) (key v : Bytes) (first last : ℕ) (w : Write)
      → is_expired s last first ≡ false
      → IsTimely key first last w
      → IsHeld m s ttl key v first
      → IsHeld m (write m s w) ttl key v first
  unfolding write
  write-IsHeld s ttl key v first last (sets now k value) e t h =
      set-IsHeld s ttl now k value key v first t h
  write-IsHeld s ttl key v first last (prunes now) e t h =
      prune-IsHeld s ttl now key v first h (alive_before s last first now h.since e t h.later)
  write-IsHeld s ttl key v first last (inserts now k value) e t h = elim (bytes_discrete k key) [
    | yes same ↦ rw same (
        insert_self-IsHeld s ttl now key value v first h
          (alive_before s last first now h.since e t.1 h.later) t.0)
    | no ne ↦ insert_ne-IsHeld s ttl now k value key v first ne h
  ]

  expiry_of_ttl :
      (s s' : Store m) (last first : ℕ)
      → s'.ttl ≡ s.ttl
      → is_expired s' last first ≡ is_expired s last first
  unfolding is_expired
  expiry_of_ttl s s' last first e = rw e

  writes-IsHeld :
      (s : Store m) (ttl : ℤ) (key v : Bytes) (first last : ℕ) (ws : List Write)
      → is_expired s last first ≡ false
      → All (IsTimely key first last) ws
      → IsHeld m s ttl key v first
      → IsHeld m (writes m s ws) ttl key v first
  unfolding writes
  writes-IsHeld s ttl key v first last [] e t h = h
  writes-IsHeld s ttl key v first last (w ∷ ws) e t h =
      let h' = write-IsHeld s ttl key v first last w e t.0 h in
      writes-IsHeld (write m s w) ttl key v first last ws
        (expiry_of_ttl s (write m s w) last first (h'.same_ttl ∙ sym h.same_ttl) ∙ e) t.1 h'

  -- The first writer wins: a value written at `first` that lives at `last` is what a read at `last`
  -- finds, whatever calls came in between, as long as none is a `set` of its key: no
  -- `insert_if_absent` of another value, no write of another key and no prune displaces it.
  pub get-writes_held :
      (s : Store m) (key v : Bytes) (first last : ℕ) (ws : List Write)
      → m.get s.slots key ≡ some (v, first)
      → is_expired s last first ≡ false
      → All (IsTimely key first last) ws
      → get m (writes m s ws) last key ≡ some v
  unfolding get
  get-writes_held s key v first last ws e alive t =
      let start : IsHeld m s s.ttl key v first = record {
        since = first;
        found = e;
        later = omega arith;
        same_ttl = refl;
      } in
      let h = writes-IsHeld s s.ttl key v first last ws alive t start in
      let alive' = expiry_of_ttl s (writes m s ws) last first h.same_ttl ∙ alive in
      let lives =
        alive_before (writes m s ws) last first last h.since alive' (omega arith) h.later in
      ground (arith, h.found, lives)
