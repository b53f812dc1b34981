-- ===== src/Fragmentation/Limits.antt =====
-- src/fragmentation.rs: the limits on messages in reassembly, in total and for each peer.
use auth_kademlia_rs.Prelude.{
  ℕ, ◌≤◌, ◌≡◌, refl, ◌≢◌, inl, inr, Bool, true, false, none, some, [], ◌∷◌, arith, ◌==◌, Bool-cases,
  Option-cases, Bytes, length,
}
use auth_kademlia_rs.Fragmentation.{
  ReassemblyEntry, FragHeader, insert, ReassemblyMap, get_entry, put_entry, remove_entry,
  accept_fragment, open_entry, add_chunk, finish, peer_entries, max_reassembly_entries,
  max_reassembly_entries_per_peer,
}

module _ {Peer : Type 0} (dec : Discrete Peer) where
  pub record IsBounded (m : ReassemblyMap dec) : Type 0 where
    pub total : length m ≤ max_reassembly_entries
    pub each : (q : Peer) → peer_entries dec q m ≤ max_reassembly_entries_per_peer

  length-remove_entry :
      (p : Peer) (i : ℕ) (m : ReassemblyMap dec) → length (remove_entry dec p i m) ≤ length m
  unfolding remove_entry
  length-remove_entry p i [] = omega arith
  length-remove_entry p i (b ∷ m) = ground (arith, length-remove_entry p i m)

  peer_entries-remove_entry :
      (p q : Peer) (i : ℕ) (m : ReassemblyMap dec)
      → peer_entries dec q (remove_entry dec p i m) ≤ peer_entries dec q m
  unfolding remove_entry peer_entries
  peer_entries-remove_entry p q i [] = omega arith
  peer_entries-remove_entry p q i (b ∷ m) = ground (arith, peer_entries-remove_entry p q i m)

  length-put_entry :
      (p : Peer) (i : ℕ) (e : ReassemblyEntry) (m : ReassemblyMap dec)
      → length (put_entry dec p i e m) ≡ length m
  unfolding put_entry
  length-put_entry p i e [] = refl
  length-put_entry p i e (b ∷ m) = ground (arith, length-put_entry p i e m)

  peer_entries-put_entry :
      (p q : Peer) (i : ℕ) (e : ReassemblyEntry) (m : ReassemblyMap dec)
      → peer_entries dec q (put_entry dec p i e m) ≡ peer_entries dec q m
  unfolding put_entry peer_entries
  peer_entries-put_entry p q i e [] = refl
  peer_entries-put_entry p q i e (b ∷ m) = ground (arith, peer_entries-put_entry p q i e m)

  remove_entry-IsBounded :
      (p : Peer) (i : ℕ) (m : ReassemblyMap dec) → IsBounded m → IsBounded (remove_entry dec p i m)
  remove_entry-IsBounded p i m b = record {
    total = omega (arith, b.total, length-remove_entry p i m);
    each = λ q. omega (arith, b.each q, peer_entries-remove_entry p q i m);
  }

  finish-IsBounded :
      (m : ReassemblyMap dec) (p : Peer) (i : ℕ) (e : ReassemblyEntry) (complete : Bool)
      → IsBounded m
      → IsBounded (finish dec m p i (e, complete)).0
  unfolding finish
  finish-IsBounded m p i e true b = remove_entry-IsBounded p i m b
  finish-IsBounded m p i e false b = record {
    total = omega (arith, b.total, length-put_entry p i e m);
    each = λ q. omega (arith, b.each q, peer_entries-put_entry p q i e m);
  }

  add_chunk-IsBounded :
      (m : ReassemblyMap dec) (p : Peer) (header : FragHeader) (chunk : Bytes)
      → IsBounded m
      → IsBounded (add_chunk dec m p header chunk).0
  unfolding add_chunk
  add_chunk-IsBounded m p header chunk b = elim (Option-cases (get_entry dec p header.frag_id m)) [
    | inl e ↦ rw (e, add_chunk) b
    | inr (old, e) ↦
        rw (e, add_chunk)
          (elim (Bool-cases (old.total == header.total)) [
            | inl same ↦ rw same (
                let (e', complete) = insert old header.index chunk in
                finish-IsBounded m p header.frag_id e' complete b)
            | inr other ↦ rw other (remove_entry-IsBounded p header.frag_id m b)
          ])
  ]

  open_entry-IsBounded :
      (now : ℕ) (m m' : ReassemblyMap dec) (p : Peer) (header : FragHeader)
      → open_entry dec now m p header ≡ some m'
      → IsBounded m
      → IsBounded m'
  unfolding open_entry peer_entries
  open_entry-IsBounded now m m' p header e b = record {
    total = ground (arith, b.total);
    each = λ q. ground (arith, b.total, b.each q, b.each p);
  }

  -- No fragment, whoever sends it, takes the map over its limits: at most 64 messages in
  -- reassembly, and at most 8 from one peer.
  pub accept_fragment-IsBounded :
      (now : ℕ) (m : ReassemblyMap dec) (p : Peer) (header : FragHeader) (chunk : Bytes)
      → IsBounded m
      → IsBounded (accept_fragment dec now m p header chunk).0
  unfolding accept_fragment
  accept_fragment-IsBounded now m p header chunk b =
      elim (Option-cases (open_entry dec now m p header)) [
        | inl e ↦ rw (e, accept_fragment) b
        | inr (m', e) ↦
            rw (e, accept_fragment)
              (add_chunk-IsBounded m' p header chunk (open_entry-IsBounded now m m' p header e b))
      ]

  -- A fragment whose total differs from that of the entry drops the entry, and no message comes
  -- out.
  pub accept_fragment_inconsistent :
      (now : ℕ) (m : ReassemblyMap dec) (p : Peer) (header : FragHeader) (chunk : Bytes)
      (old : ReassemblyEntry)
      → get_entry dec p header.frag_id m ≡ some old
      → old.total ≢ header.total
      → accept_fragment dec now m p header chunk ≡ (remove_entry dec p header.frag_id m, none)
  unfolding accept_fragment open_entry add_chunk
  accept_fragment_inconsistent now m p header chunk old e h = ground arith
