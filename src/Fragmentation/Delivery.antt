-- ===== src/Fragmentation/Delivery.antt =====
-- src/fragmentation.rs: sequences of fragments, from any peers and in any order.
use mathlib.Core.List.{flatten}
use auth_kademlia_rs.Prelude.{
  ℕ, ◌≡◌, inl, inr, Bool, true, ◌&&◌, some, List, [], ◌∷◌, arith, ◌==◌, holds, Bool-cases,
  Option-cases, Bytes, length, get_elem?, All,
}
use auth_kademlia_rs.Fragmentation.{ReassemblyMap, get_entry, Arrival, messages, accept_fragment}
use auth_kademlia_rs.Fragmentation.Reassembly.{IsPart, accept_fragment_ne, accept_fragment-IsHonest}

module _ {Peer : Type 0} (dec : Discrete Peer) where
  abbrev pub is_under : Peer → ℕ → Arrival dec → Bool
  is_under p i a = holds (dec p a.peer) && i == a.header.frag_id

  -- A fragment under the key carries a chunk of `cs` at its place.
  abbrev pub IsChunkOf : List Bytes → Arrival dec → Type 0
  IsChunkOf cs a = (a.header.total ≡ length cs) × (get_elem? cs a.header.index ≡ some a.chunk)

  key_eq : (p q : Peer) (i j : ℕ) → (holds (dec p q) && i == j) ≡ true → (p ≡ q) × (i ≡ j)
  key_eq p q i j h = ground arith

  -- What one fragment leaves under the key, and what it completes.
  abbrev KeepsMessage : List Bytes → Peer → ℕ → ReassemblyMap dec → Arrival dec → Type 0
  KeepsMessage cs p i m a =
      IsPart cs (get_entry dec p i (accept_fragment dec a.now m a.peer a.header a.chunk).0)
      × (is_under p i a ≡ true
          → (payload : Bytes)
          → (accept_fragment dec a.now m a.peer a.header a.chunk).1 ≡ some payload
          → payload ≡ flatten cs)

  accept-KeepsMessage :
      (cs : List Bytes) (p : Peer) (i : ℕ) (m : ReassemblyMap dec) (a : Arrival dec)
      → IsPart cs (get_entry dec p i m)
      → (is_under p i a ≡ true → IsChunkOf cs a)
      → KeepsMessage cs p i m a
  accept-KeepsMessage cs p i m a part own = elim (Bool-cases (is_under p i a)) [
    | inl mine ↦
        let (same_peer, same_id) = key_eq p a.peer i a.header.frag_id mine in
        let chunk = own mine in
        let honest =
          accept_fragment-IsHonest dec cs a.now m a.peer a.header a.chunk chunk.0 chunk.1
            (rw (same_peer, same_id) at part) in
        (rw (same_peer, same_id) honest.part, λ yours. honest.message)
    | inr other ↦
        (rw (accept_fragment_ne dec a.now m a.peer p i a.header a.chunk other) part, λ yours. cc)
  ]

  -- No mix-up: if every fragment that comes under a peer and an id carries a chunk of `cs` at its
  -- place, then every message that comes out under them is `cs` joined in order, however the
  -- fragments are ordered and repeated and whatever other peers send in between.
  pub messages_intact :
      (cs : List Bytes) (p : Peer) (i : ℕ) (m : ReassemblyMap dec) (arrivals : List (Arrival dec))
      → IsPart cs (get_entry dec p i m)
      → All (λ a. is_under p i a ≡ true → IsChunkOf cs a) arrivals
      → All (λ o. is_under p i o.0 ≡ true → o.1 ≡ flatten cs) (messages dec m arrivals)
  unfolding messages
  messages_intact cs p i m [] part own = tt
  messages_intact cs p i m (a ∷ rest) part own =
      let (part', out) = accept-KeepsMessage cs p i m a part own.0 in
      let r = accept_fragment dec a.now m a.peer a.header a.chunk in
      let others = messages_intact cs p i r.0 rest part' own.1 in
      elim (Option-cases r.1) [
        | inl e ↦ rw (e, messages) others
        | inr (payload, e) ↦ rw (e, messages) (λ mine. out mine payload e, others)
      ]
