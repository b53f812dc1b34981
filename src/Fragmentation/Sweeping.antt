-- ===== src/Fragmentation/Sweeping.antt =====
-- src/fragmentation.rs and `gc_reassembly` of src/protocol/transport.rs: when every chunk of a message
-- has come once, in any order, before its entry expires, the message comes out with the last one.
use auth_kademlia_rs.Prelude.{ℕ, ◌<◌, Bool, Option, none, some, List, ltb, All}
use auth_kademlia_rs.Storage.{elapsed}
use auth_kademlia_rs.Fragmentation.{ReassemblyEntry, reassembly_ttl}
use auth_kademlia_rs.Fragmentation.Completion.{Delivery}

-- When the entry was opened that a fragment meets, or is opened by it.
abbrev pub opened_at : ℕ → Option ReassemblyEntry → ℕ
opened_at now none = now
opened_at now (some e) = e.created_at

module _ {Peer : Type 0} (dec : Discrete Peer) where
  abbrev is_young : ℕ → (Peer × ℕ) × ReassemblyEntry → Bool
  is_young now e = ltb (elapsed now e.1.created_at) reassembly_ttl

  -- The deliveries come before the entry expires that was opened then.
  abbrev pub AreTimely : ℕ → List Delivery → Type 0
  AreTimely opened ds = All (λ d. elapsed d.0 opened < reassembly_ttl) ds
