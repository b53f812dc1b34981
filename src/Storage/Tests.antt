-- ===== src/Storage/Tests.antt =====
-- src/storage.rs: runs of the store over an association list, and the theorems at these inputs.
use mathlib.Core.List.{lookup}
use auth_kademlia_rs.Prelude.{
  ◌≡◌, refl, ◌≢◌, ◌↔◌, none, some, List, [], ◌∷◌, arith, Bytes, bytes_discrete,
}
use auth_kademlia_rs.Prelude.KeyMap.{KeyMap, IsKeyMap}
use auth_kademlia_rs.Prelude.KeyMap.Assoc.{assoc, assoc-IsKeyMap}
use auth_kademlia_rs.Storage.{
  Slot, Store, is_expired, pos, stored, conflict, capacity_exceeded, with_max_storage_bytes, set,
  insert_if_absent, get, prune_expired,
}
use auth_kademlia_rs.Storage.Budget.{
  IsAccounted, Write, sets, inserts, prunes, writes, new-writes-IsAccounted,
}
use auth_kademlia_rs.Storage.Reads.{
  read_after, get-set, get-insert_if_absent, insert_if_absent-conflict_iff,
}
use auth_kademlia_rs.Storage.FirstWriter.{get-writes_held}

abbrev table : KeyMap Bytes Slot
table = assoc bytes_discrete

abbrev laws : IsKeyMap bytes_discrete table
laws = assoc-IsKeyMap bytes_discrete

abbrev key_a : Bytes
key_a = 1 ∷ []

abbrev key_b : Bytes
key_b = 2 ∷ []

abbrev old_value : Bytes
old_value = 10 ∷ 11 ∷ []

abbrev new_value : Bytes
new_value = 20 ∷ 21 ∷ 22 ∷ []

-- A lifetime of one second, and room for eight bytes.
abbrev empty_store : Store table
empty_store = record {
  slots = table.empty;
  ttl = pos 1;
  current_storage_bytes = 0;
  max_storage_bytes = 8;
}

-- `key_a` written at 0.
abbrev one_entry : Store table
one_entry = record empty_store {
  slots = table.insert table.empty key_a (old_value, 0);
  current_storage_bytes = 3;
}

abbrev history : List Write
history =
    inserts 5 key_a new_value ∷ sets 6 key_b new_value ∷ prunes 7 ∷ inserts 8 key_a old_value ∷ []

set_runs : set table empty_store 0 key_a old_value ≡ (one_entry, stored)
unfolding set bytes_discrete lookup
set_runs = refl

full_runs : (set table one_entry 1 key_b (0 ∷ 0 ∷ 0 ∷ 0 ∷ 0 ∷ [])).1 ≡ capacity_exceeded
unfolding set bytes_discrete lookup
full_runs = refl

conflict_runs : insert_if_absent table one_entry 5 key_a new_value ≡ (one_entry, conflict)
unfolding insert_if_absent bytes_discrete lookup is_expired
conflict_runs = refl

expiry_runs :
    (get table one_entry 1_000_000_000 key_a ≡ some old_value)
    × (get table one_entry 1_000_000_001 key_a ≡ none)
    × ((prune_expired table one_entry 1_000_000_001).0.current_storage_bytes ≡ 0)
unfolding get prune_expired bytes_discrete lookup
expiry_runs = (refl, refl, refl)

new-writes-IsAccounted_example :
    IsAccounted table (writes table (with_max_storage_bytes table (pos 1) 8) history)
new-writes-IsAccounted_example = new-writes-IsAccounted laws (pos 1) 8 history (omega arith)

get-set_example :
    get table (set table one_entry 4 key_a new_value).0 9 key_a
    ≡ read_after table one_entry (set table one_entry 4 key_a new_value).1 4 key_a new_value 9 key_a
get-set_example = get-set laws one_entry 4 key_a new_value 9 key_a

get-insert_if_absent_example :
    get table (insert_if_absent table one_entry 4 key_b new_value).0 9 key_b
    ≡ read_after table one_entry
        (insert_if_absent table one_entry 4 key_b new_value).1
        4
        key_b
        new_value
        9
        key_b
get-insert_if_absent_example = get-insert_if_absent laws one_entry 4 key_b new_value 9 key_b

insert_if_absent-conflict_iff_example :
    (insert_if_absent table one_entry 5 key_a new_value ≡ (one_entry, conflict))
    ↔ ((v : Bytes) × (get table one_entry 5 key_a ≡ some v) × (v ≢ new_value))
insert_if_absent-conflict_iff_example =
    insert_if_absent-conflict_iff table one_entry 5 key_a new_value

get-writes_held_example : get table (writes table one_entry history) 9 key_a ≡ some old_value
unfolding bytes_discrete lookup is_expired
get-writes_held_example = get-writes_held laws one_entry key_a old_value 0 9 history refl refl (
  (omega arith, omega arith),
  ((λ e. ground arith), (omega arith, ((omega arith, omega arith), tt))),
)
