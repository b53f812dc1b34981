-- ===== src/Storage.antt =====
-- src/storage.rs: `ForgetfulStorage`, the key-value store of a node, with a byte budget and a
-- lifetime after which an entry is no longer read. The `DashMap` is a parameter (Prelude.KeyMap).
-- A method takes the instant of its call, in nanoseconds, and returns the store that it leaves
-- beside its result; each runs as one step, as under the lock that the map's `entry` holds.
pub mod Budget
pub mod Reads
pub mod FirstWriter
pub mod Tests
use auth_kademlia_rs.Prelude.{
  ℕ, zero, ◌+◌, ◌-◌, ◌*◌, ◌%◌, ◌^◌, Bool, true, false, not, ◌&&◌, Option, none, some, List, [], ◌∷◌,
  map, Bytes, bytes_eq, length, retain, ltb, leb, ◌==◌, if◌then◌else◌,
}
use auth_kademlia_rs.Prelude.KeyMap.{KeyMap}

-- `i64`: `negsuc n` is -(n + 1).
pub data ℤ : Type 0 where
  pos negsuc : ℕ → ℤ

abbrev pub usize_mod : ℕ
usize_mod = 2 ^ 64

abbrev pub nanos_per_sec : ℕ
nanos_per_sec = 1_000_000_000

-- `ttl as u64`
abbrev pub as_u64 : ℤ → ℕ
as_u64 (pos n) = n % 2 ^ 64
as_u64 (negsuc n) = 2 ^ 64 - 1 - n

abbrev pub default_ttl : ℤ
default_ttl = pos (14 * 24 * 60 * 60)

abbrev pub default_max_storage_bytes : ℕ
default_max_storage_bytes = 512 * 1024 * 1024

pub data StorageWriteStatus : Type 0 where
  stored already_stored conflict capacity_exceeded : StorageWriteStatus

-- A value and the instant of its insertion.
abbrev pub Slot : Type 0
Slot = Bytes × ℕ

pub record ForgetfulStorage (Map : Type 0) : Type 0 where
  pub slots : Map
  pub ttl : ℤ
  pub current_storage_bytes : ℕ
  pub max_storage_bytes : ℕ

-- `inserted_at.elapsed()` is 0 for an instant that lies ahead.
abbrev pub elapsed : ℕ → ℕ → ℕ
elapsed now inserted_at = now - inserted_at

-- `self.ttl == -1`
abbrev pub never_expires : ℤ → Bool
never_expires (negsuc zero) = true
never_expires _ = false

-- The bytes that an entry is charged: those of its key and of its value. A `Vec` holds at most
-- `isize::MAX` bytes, so the sum does not wrap.
abbrev pub record_bytes : Bytes → Bytes → ℕ
record_bytes key value = length key + length value

abbrev pub entry_bytes : Bytes × Slot → ℕ
entry_bytes (key, slot) = record_bytes key slot.0

abbrev pub key_value : Bytes × Slot → Bytes × Bytes
key_value (key, slot) = (key, slot.0)

unfoldable pub total_bytes : List (Bytes × Slot) → ℕ
total_bytes [] = 0
total_bytes (e ∷ l) = entry_bytes e + total_bytes l

-- The result of a method that writes: the store, and the status.
abbrev pub Written : Type 0 → Type 0
Written Map = ForgetfulStorage Map × StorageWriteStatus

module _ {Map : Type 0} where
  unfoldable pub is_expired : ForgetfulStorage Map → ℕ → ℕ → Bool
  is_expired s now inserted_at =
      if never_expires s.ttl
      then false
      else ltb (as_u64 s.ttl * nanos_per_sec) (elapsed now inserted_at)

  -- `checked_add` then the test against the maximum; on failure the counter stays.
  unfoldable pub reserve_bytes : ForgetfulStorage Map → ℕ → ForgetfulStorage Map × Bool
  reserve_bytes s additional =
      if additional == 0
      then (s, true)
      else if ltb (s.current_storage_bytes + additional) usize_mod
          && leb (s.current_storage_bytes + additional) s.max_storage_bytes
      then (record s { current_storage_bytes = s.current_storage_bytes + additional }, true)
      else (s, false)

  -- `fetch_sub` wraps.
  unfoldable pub release_bytes : ForgetfulStorage Map → ℕ → ForgetfulStorage Map
  release_bytes s released = if released == 0 then s else record s {
    current_storage_bytes = (s.current_storage_bytes + usize_mod - released) % usize_mod;
  }

  -- The slot is a `&mut` into the map: the new slot is returned, and the caller writes it back.
  -- `none` stands for a slot that is left as it is.
  unfoldable pub replace_value :
      ForgetfulStorage Map
      → ℕ
      → ℕ
      → Slot
      → Bytes
      → ForgetfulStorage Map × Option Slot × StorageWriteStatus
  unfolding reserve_bytes release_bytes
  replace_value s now old_value_len slot value =
      if bytes_eq slot.0 value
      then (s, some (slot.0, now), already_stored)
      else if ltb old_value_len (length value)
      then (let (s', reserved) = reserve_bytes s (length value - old_value_len) in
          if reserved then (s', some (value, now), stored) else (s', none, capacity_exceeded))
      else (
        if ltb (length value) old_value_len
            then release_bytes s (old_value_len - length value)
            else s,
        some (value, now),
        stored,
      )

module _ (m : KeyMap Bytes Slot) where
  abbrev pub Store : Type 0
  Store = ForgetfulStorage m.Map

  unfoldable pub with_max_storage_bytes : ℤ → ℕ → Store
  with_max_storage_bytes ttl max = record {
    slots = m.empty;
    ttl = ttl;
    current_storage_bytes = 0;
    max_storage_bytes = max;
  }

  unfoldable pub new : ℤ → Store
  unfolding with_max_storage_bytes
  new ttl = with_max_storage_bytes ttl default_max_storage_bytes

  -- `Entry::Vacant`, the same in both writers
  unfoldable pub insert_vacant : Store → ℕ → Bytes → Bytes → Written m.Map
  unfolding reserve_bytes
  insert_vacant s now key value =
      let (s', reserved) = reserve_bytes s (record_bytes key value) in
      if reserved
      then (record s' { slots = m.insert s'.slots key (value, now) }, stored)
      else (s', capacity_exceeded)

  -- what `replace_value` left in the slot, written back
  abbrev pub write_slot :
      Bytes → ForgetfulStorage m.Map × Option Slot × StorageWriteStatus → Written m.Map
  write_slot key (s, none, status) = (s, status)
  write_slot key (s, some slot, status) = (record s { slots = m.insert s.slots key slot }, status)

  unfoldable pub set : Store → ℕ → Bytes → Bytes → Written m.Map
  unfolding insert_vacant replace_value
  set s now key value = elim (m.get s.slots key) [
    | none ↦ insert_vacant s now key value
    | some slot ↦ write_slot key (replace_value s now (length slot.0) slot value)
  ]

  -- `Entry::Occupied` of `insert_if_absent`: an expired entry counts as absent
  unfoldable pub insert_occupied : Store → ℕ → Bytes → Bytes → Slot → Written m.Map
  insert_occupied s now key value slot =
      if is_expired s now slot.1
      then write_slot key (replace_value s now (length slot.0) slot value)
      else if bytes_eq slot.0 value
      then (record s { slots = m.insert s.slots key (slot.0, now) }, already_stored)
      else (s, conflict)

  unfoldable pub insert_if_absent : Store → ℕ → Bytes → Bytes → Written m.Map
  unfolding insert_vacant insert_occupied
  insert_if_absent s now key value = elim (m.get s.slots key) [
    | none ↦ insert_vacant s now key value
    | some slot ↦ insert_occupied s now key value slot
  ]

  unfoldable pub get_default : Store → ℕ → Bytes → Option Bytes → Option Bytes
  unfolding is_expired
  get_default s now key default = elim (m.get s.slots key) [
    | none ↦ default
    | some slot ↦ if is_expired s now slot.1 then default else some slot.0
  ]

  unfoldable pub get : Store → ℕ → Bytes → Option Bytes
  unfolding get_default
  get s now key = get_default s now key none

  abbrev pub live_entry : Store → ℕ → Bytes → Slot → Bool
  live_entry s now key slot = not (is_expired s now slot.1)

  -- the entries that `prune_expired` removes, and their bytes
  abbrev pub expired_entries : Store → ℕ → List (Bytes × Slot)
  expired_entries s now = retain (λ e. is_expired s now e.1.1) (m.entries s.slots)

  unfoldable pub prune_expired : Store → ℕ → Store × ℕ
  unfolding is_expired release_bytes total_bytes
  prune_expired s now = if never_expires s.ttl then (s, 0) else (
    release_bytes (record s { slots = m.retain_entries (live_entry s now) s.slots })
        (total_bytes (expired_entries s now)),
    length (expired_entries s now),
  )

  unfoldable pub iter_older_than : Store → ℕ → ℕ → List (Bytes × Bytes)
  unfolding is_expired
  iter_older_than s now seconds_old = map key_value (
      retain
        (λ e. leb (seconds_old * nanos_per_sec) (elapsed now e.1.1) && not (is_expired s now e.1.1))
        (m.entries s.slots))

  unfoldable pub iter_all : Store → ℕ → List (Bytes × Bytes)
  unfolding is_expired
  iter_all s now = map key_value (retain (λ e. not (is_expired s now e.1.1)) (m.entries s.slots))
