-- ===== src/StoreCheck/Laws.antt =====
-- src/protocol/store_check.rs: when a STORE may change what a replica holds.
use auth_kademlia_rs.Prelude.{
  ℕ, ◌≤◌, ◌≡◌, refl, ◌⊎◌, inl, inr, true, false, arith, Bool-cases, Bytes,
}
use auth_kademlia_rs.Prelude.KeyMap.{KeyMap}
use auth_kademlia_rs.Storage.{Slot, Store}
use auth_kademlia_rs.StoreCheck.{
  max_store_lookups, take_slot, drop_slot, NetworkCopy, none_or_same, other, unknown, Handler,
  store_needs_lookup, verify_and_store, after_lookup, rpc_store,
}

-- The counter stays within the places, whether one was free or not, and a place that is given back
-- restores it.
pub take_slot_bounds :
    (count : ℕ)
    → count ≤ max_store_lookups
    → ((take_slot count).0 ≤ max_store_lookups)
      × ((take_slot count).1 ≡ true → drop_slot (take_slot count).0 ≡ count)
      × ((take_slot count).1 ≡ false → (take_slot count).0 ≡ count)
unfolding take_slot drop_slot
take_slot_bounds count p = ground arith

module _ (m : KeyMap Bytes Slot) where
  -- The record is authentic, and if the replica had none, then it belongs to the key and every node
  -- asked answered without naming another one.
  abbrev pub MayStore : Handler → Store m → ℕ → Bytes → Bytes → NetworkCopy → Type 0
  MayStore h s now key value copy =
      (h.verify_for_key key value ≡ true)
      × (store_needs_lookup m h s now key ≡ true
          → (h.key_binding_is_valid key value ≡ true) × (copy ≡ none_or_same))

  verify_and_store-cases :
      (h : Handler) (s : Store m) (now : ℕ) (key value : Bytes)
      → (h.verify_for_key key value ≡ true) ⊎ ((verify_and_store m h s now key value).1 ≡ s)
  unfolding verify_and_store
  verify_and_store-cases h s now key value = elim (Bool-cases (h.verify_for_key key value)) [
    | inl e ↦ inl e
    | inr e ↦ inr (rw e refl)
  ]

  after_lookup-cases :
      (h : Handler) (s : Store m) (now : ℕ) (key value : Bytes) (copy : NetworkCopy)
      → ((h.verify_for_key key value ≡ true) × (copy ≡ none_or_same))
        ⊎ ((after_lookup m h s now key value copy).1 ≡ s)
  unfolding after_lookup
  after_lookup-cases h s now key value none_or_same =
      elim (verify_and_store-cases h s now key value) [ inl e ↦ inl (e, refl) | inr e ↦ inr e ]
  after_lookup-cases h s now key value other = inr refl
  after_lookup-cases h s now key value unknown = inr refl

  -- A STORE leaves what the replica holds as it was, unless the record is authentic and, where the
  -- replica held none for a DID, is bound to the key and found the same or nowhere in the network.
  pub rpc_store-MayStore :
      (h : Handler) (s : Store m) (now : ℕ) (key value : Bytes) (copy : NetworkCopy)
      → MayStore h s now key value copy ⊎ ((rpc_store m h s now key value copy).1 ≡ s)
  unfolding rpc_store
  rpc_store-MayStore h s now key value copy = elim (Bool-cases (store_needs_lookup m h s now key)) [
    | inl e ↦ elim (Bool-cases (h.key_binding_is_valid key value)) [
      | inl f ↦ elim (after_lookup-cases h s now key value copy) [
        | inl g ↦ inl (g.0, λ k. (f, g.1))
        | inr g ↦ inr (rw (e, f) g)
      ]
      | inr f ↦ inr (rw (e, f) refl)
    ]
    | inr e ↦ elim (verify_and_store-cases h s now key value) [
      | inl g ↦ inl (g, λ k. absurd (ground arith))
      | inr g ↦ inr (rw e g)
    ]
  ]
