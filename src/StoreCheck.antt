-- ===== src/StoreCheck.antt =====
-- src/protocol/store_check.rs: what a replica does with a STORE. What the lookup of an empty replica
-- ends with is the argument `copy`, and StoreCheck.Lookup defines it; the signatures and the binding
-- of a record to its key are checked by `verify_for_key` and `key_binding_is_valid`.
pub mod Laws
pub mod Lookup
pub mod Unanimity
pub mod Tests
use auth_kademlia_rs.Prelude.{
  ℕ, ◌+◌, ◌-◌, ◌%◌, Bool, true, false, not, ◌&&◌, Option, none, some, leb, if◌then◌else◌, Bytes,
  bytes_eq,
}
use auth_kademlia_rs.Prelude.KeyMap.{KeyMap}
use auth_kademlia_rs.Storage.{usize_mod, Slot, Store, insert_if_absent, get}
use auth_kademlia_rs.Crawling.Search.{ValueSearch, found, not_found, incomplete}
use auth_kademlia_rs.Messages.{StoreStatus, conflict, invalid_record, from_write_status}

abbrev pub max_store_lookups : ℕ
max_store_lookups = 256

-- The counter after `take`, and whether a place was taken.
unfoldable pub take_slot : ℕ → ℕ × Bool
take_slot count =
    let added = (count + 1) % usize_mod in
    if leb max_store_lookups count
    then ((added + (usize_mod - 1)) % usize_mod, false)
    else (added, true)

unfoldable pub drop_slot : ℕ → ℕ
drop_slot count = (count + (usize_mod - 1)) % usize_mod

pub data NetworkCopy : Type 0 where
  none_or_same : NetworkCopy
  other : NetworkCopy
  unknown : NetworkCopy

-- The end of `network_copy`.
unfoldable pub copy_of : ValueSearch → NetworkCopy
copy_of (found hash) = other
copy_of not_found = none_or_same
copy_of incomplete = unknown

-- The closure that `network_copy` gives to the lookup: another hash ends it.
unfoldable pub accept_other : Bytes → Bytes → Option Bytes
accept_other own hash = if bytes_eq hash own then none else some hash

abbrev pub is_none : Option Bytes → Bool
is_none none = true
is_none (some v) = false

-- What the handler calls: the digest of `STATUS_LIST_KEY`, and the checks of a record.
pub record Handler : Type 0 where
  pub status_list_key : Bytes
  pub key_binding_is_valid : Bytes → Bytes → Bool
  pub verify_for_key : Bytes → Bytes → Bool

module _ (m : KeyMap Bytes Slot) where
  unfoldable pub store_needs_lookup : Handler → Store m → ℕ → Bytes → Bool
  store_needs_lookup h s now key = not (bytes_eq key h.status_list_key) && is_none (get m s now key)

  -- `rpc_store` from the verification on.
  unfoldable pub verify_and_store :
      Handler → Store m → ℕ → Bytes → Bytes → Option StoreStatus × Store m
  unfolding from_write_status
  verify_and_store h s now key value =
      if h.verify_for_key key value
      then (let r = insert_if_absent m s now key value in (some (from_write_status r.1), r.0))
      else (some invalid_record, s)

  unfoldable pub after_lookup :
      Handler → Store m → ℕ → Bytes → Bytes → NetworkCopy → Option StoreStatus × Store m
  unfolding verify_and_store
  after_lookup h s now key value none_or_same = verify_and_store h s now key value
  after_lookup h s now key value other = (some conflict, s)
  after_lookup h s now key value unknown = (none, s)

  unfoldable pub rpc_store :
      Handler → Store m → ℕ → Bytes → Bytes → NetworkCopy → Option StoreStatus × Store m
  unfolding store_needs_lookup after_lookup verify_and_store
  rpc_store h s now key value copy =
      if store_needs_lookup h s now key
      then if h.key_binding_is_valid key value
        then after_lookup h s now key value copy
        else (some invalid_record, s)
      else verify_and_store h s now key value
