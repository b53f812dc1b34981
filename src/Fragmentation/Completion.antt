-- ===== src/Fragmentation/Completion.antt =====
-- src/fragmentation.rs: what a chunk does that the entry of its message still lacks.
use mathlib.Core.List.{flatten}
use auth_kademlia_rs.Prelude.{
  ℕ, zero, suc, ◌+◌, ◌<◌, ◌≡◌, refl, sym, subst, ◌∙◌, ◌≢◌, inl, inr, true, false, Option, none,
  some, List, [], ◌∷◌, arith, ◌==◌, Option-cases, Bytes, length, get_elem?, set, replicate, All,
  get_elem?-set_ne,
}
use auth_kademlia_rs.Fragmentation.{
  ReassemblyEntry, FragHeader, new, insert, fill, ReassemblyMap, get_entry, Arrival,
  accept_fragment, open_entry, add_chunk, finish, peer_entries, max_reassembly_entries,
  max_reassembly_entries_per_peer,
}
use auth_kademlia_rs.Fragmentation.Entry.{
  IsPartial, Matches-set, count_filled, new-IsPartial, assemble_complete, count_filled-replicate,
  count_filled-set,
}
use auth_kademlia_rs.Fragmentation.Reassembly.{IsPart, get_entry-put_entry_self}

-- The slot of an index is empty, in an entry or where there is none yet.
abbrev pub IsEmptyAt : Option ReassemblyEntry → ℕ → Type 0
IsEmptyAt none i = Unit {0}
IsEmptyAt (some e) i = get_elem? e.chunks i ≡ some none

abbrev pub count_of : Option ReassemblyEntry → ℕ
count_of none = 0
count_of (some e) = count_filled e.chunks

-- An instant, an index and a chunk.
abbrev pub Delivery : Type 0
Delivery = ℕ × ℕ × Bytes

abbrev pub AreDistinct : List Delivery → Type 0
AreDistinct [] = Unit {0}
AreDistinct (d ∷ ds) = All (λ x. d.1 ≢ x.1) ds × AreDistinct ds

replicate-get :
    (cs : List Bytes) (i : ℕ) (c : Bytes)
    → get_elem? cs i ≡ some c
    → get_elem? {A = Option Bytes} (replicate (length cs) none) i ≡ some none
replicate-get [] i c h = cc
replicate-get (x ∷ cs) zero c h = refl
replicate-get (x ∷ cs) (suc i) c h = replicate-get cs i c h

-- The entry that a fragment meets: what is there, or a new one.
abbrev pub entry_for : ℕ → ℕ → Option ReassemblyEntry → ReassemblyEntry
entry_for now total none = new total now
entry_for now total (some e) = e

entry_for-IsPartial :
    (cs : List Bytes) (now : ℕ) (o : Option ReassemblyEntry)
    → IsPart cs o
    → IsPartial cs (entry_for now (length cs) o)
entry_for-IsPartial cs now none h = new-IsPartial cs now
entry_for-IsPartial cs now (some e) h = h

count_of-entry_for :
    (cs : List Bytes) (now : ℕ) (o : Option ReassemblyEntry)
    → count_filled (entry_for now (length cs) o).chunks ≡ count_of o
unfolding new
count_of-entry_for cs now none = count_filled-replicate (length cs)
count_of-entry_for cs now (some e) = refl

entry_for-get :
    (cs : List Bytes) (now : ℕ) (o : Option ReassemblyEntry) (i : ℕ) (c : Bytes)
    → get_elem? cs i ≡ some c
    → IsEmptyAt o i
    → get_elem? (entry_for now (length cs) o).chunks i ≡ some none
unfolding new
entry_for-get cs now none i c h e = replicate-get cs i c h
entry_for-get cs now (some x) i c h e = e

module _ {Peer : Type 0} (dec : Discrete Peer) where
  abbrev pub own : Peer → ℕ → ℕ → Delivery → Arrival dec
  own p i total (now, index, chunk) = record {
    now = now;
    peer = p;
    header = record { frag_id = i; index = index; total = total };
    chunk = chunk;
  }

  abbrev pub HasRoom : ReassemblyMap dec → Peer → Option ReassemblyEntry → Type 0
  HasRoom m p none =
      (length m < max_reassembly_entries) × (peer_entries dec p m < max_reassembly_entries_per_peer)
  HasRoom m p (some e) = Unit {0}

  -- The deliveries `ds` are what the entry of the message `cs` still lacks.
  pub record Expects (cs : List Bytes) (p : Peer) (i : ℕ) (m : ReassemblyMap dec)
      (ds : List Delivery) : Type 0 where
    pub part : IsPart cs (get_entry dec p i m)
    pub room : HasRoom m p (get_entry dec p i m)
    pub chunks : All (λ d. get_elem? cs d.1 ≡ some d.2) ds
    pub lacking : All (λ d. IsEmptyAt (get_entry dec p i m) d.1) ds
    pub distinct : AreDistinct ds
    pub count : count_of (get_entry dec p i m) + length ds ≡ length cs

  open_entry_room :
      (now : ℕ) (m : ReassemblyMap dec) (p : Peer) (header : FragHeader)
      → HasRoom m p (get_entry dec p header.frag_id m)
      → (m' : ReassemblyMap dec) × (open_entry dec now m p header ≡ some m')
        × (get_entry dec p header.frag_id m'
            ≡ some (entry_for now header.total (get_entry dec p header.frag_id m)))
  unfolding open_entry get_entry
  open_entry_room now m p header room = elim (Option-cases (get_entry dec p header.frag_id m)) [
    | inl e ↦
        let free = rw e at room in
        (((p, header.frag_id), new header.total now) ∷ m, ground arith, ground arith)
    | inr (old, e) ↦ (m, ground arith, ground arith)
  ]

  -- One delivery into an entry whose slot is empty.
  add_chunk-fill :
      (m : ReassemblyMap dec) (p : Peer) (header : FragHeader) (c : Bytes) (e : ReassemblyEntry)
      → get_entry dec p header.frag_id m ≡ some e
      → e.total ≡ header.total
      → get_elem? e.chunks header.index ≡ some none
      → add_chunk dec m p header c
        ≡ finish dec m p header.frag_id (fill e header.index c none, (e.received + 1) == e.total)
  unfolding add_chunk insert fill
  add_chunk-fill m p header c e found t at = ground arith

  abbrev pub entry_at : List Bytes → Peer → ℕ → ReassemblyMap dec → Delivery → ReassemblyEntry
  entry_at cs p i m d = entry_for d.0 (length cs) (get_entry dec p i m)

  abbrev pub accepted :
      List Bytes → Peer → ℕ → ReassemblyMap dec → Delivery → ReassemblyMap dec × Option Bytes
  accepted cs p i m d = accept_fragment dec d.0 m p (own p i (length cs) d).header d.2

  -- One fragment of the message: the entry with its chunk, handed to `finish`.
  accept_own :
      (cs : List Bytes) (p : Peer) (i : ℕ) (m : ReassemblyMap dec) (d : Delivery)
      (ds : List Delivery)
      → Expects cs p i m (d ∷ ds)
      → (m' : ReassemblyMap dec) × (get_entry dec p i m' ≡ some (entry_at cs p i m d))
        × (accepted cs p i m d
            ≡ finish dec m' p i (
              fill (entry_at cs p i m d) d.1 d.2 none,
              ((entry_at cs p i m d).received + 1) == (entry_at cs p i m d).total,
            ))
  unfolding accept_fragment
  accept_own cs p i m d ds x =
      let header = (own p i (length cs) d).header in
      let (m', opened, found) = open_entry_room d.0 m p header x.room in
      let part = entry_for-IsPartial cs d.0 (get_entry dec p i m) x.part in
      let at = entry_for-get cs d.0 (get_entry dec p i m) d.1 d.2 x.chunks.0 x.lacking.0 in
      (
        m',
        found,
        rw (opened, accept_fragment)
            (add_chunk-fill m' p header d.2 (entry_at cs p i m d) found part.whole at),
      )

  fill-IsPartial :
      (cs : List Bytes) (p : Peer) (i : ℕ) (m : ReassemblyMap dec) (d : Delivery)
      (ds : List Delivery)
      → Expects cs p i m (d ∷ ds)
      → IsPartial cs (fill (entry_at cs p i m d) d.1 d.2 none)
        × ((entry_at cs p i m d).received + length (d ∷ ds) ≡ length cs)
  unfolding fill
  fill-IsPartial cs p i m d ds x =
      let o = get_entry dec p i m in
      let part = entry_for-IsPartial cs d.0 o x.part in
      let at = entry_for-get cs d.0 o d.1 d.2 x.chunks.0 x.lacking.0 in
      let e = entry_at cs p i m d in
      (
        record {
          slots = Matches-set cs e.chunks d.1 d.2 part.slots x.chunks.0;
          counted = omega (arith, part.counted, count_filled-set e.chunks d.1 d.2 at);
          whole = part.whole;
        },
        omega (arith, part.counted, count_of-entry_for cs d.0 o, x.count),
      )

  pub accept_last :
      (cs : List Bytes) (p : Peer) (i : ℕ) (m : ReassemblyMap dec) (d : Delivery)
      → Expects cs p i m (d ∷ [])
      → (accepted cs p i m d).1 ≡ some (flatten cs)
  unfolding finish fill
  accept_last cs p i m d x =
      let (m', found, step) = accept_own cs p i m d [] x in
      let (part, count) = fill-IsPartial cs p i m d [] x in
      let e = entry_at cs p i m d in
      let full : e.received + 1 ≡ e.total = omega (arith, part.whole, count) in
      let test : ((e.received + 1) == e.total) ≡ true = ground arith in
      rw (step, test) (assemble_complete cs (fill e d.1 d.2 none) part full)

  lacking_after :
      (cs : List Bytes) (o : Option ReassemblyEntry) (now i : ℕ) (c : Bytes) (ds : List Delivery)
      → All (λ d. get_elem? cs d.1 ≡ some d.2) ds
      → All (λ d. IsEmptyAt o d.1) ds
      → All (λ d. i ≢ d.1) ds
      → All
          (λ d. get_elem? (set (entry_for now (length cs) o).chunks i (some c)) d.1 ≡ some none)
          ds
  lacking_after cs o now i c [] h l n = tt
  lacking_after cs o now i c (d ∷ ds) h l n = (
    get_elem?-set_ne (entry_for now (length cs) o).chunks (some c) n.0
        ∙ entry_for-get cs now o d.1 d.2 h.0 l.0,
    lacking_after cs o now i c ds h.1 l.1 n.1,
  )

  pub accept_more :
      (cs : List Bytes) (p : Peer) (i : ℕ) (m : ReassemblyMap dec) (d d' : Delivery)
      (ds : List Delivery)
      → Expects cs p i m (d ∷ d' ∷ ds)
      → ((accepted cs p i m d).1 ≡ none)
        × Expects cs p i (accepted cs p i m d).0 (d' ∷ ds)
        × (get_entry dec p i (accepted cs p i m d).0
            ≡ some (fill (entry_at cs p i m d) d.1 d.2 none))
  unfolding finish fill
  accept_more cs p i m d d' ds x =
      let o = get_entry dec p i m in
      let (m', found, step) = accept_own cs p i m d (d' ∷ ds) x in
      let (part, count) = fill-IsPartial cs p i m d (d' ∷ ds) x in
      let e = entry_at cs p i m d in
      let test : ((e.received + 1) == e.total) ≡ false = ground (arith, part.whole) in
      let stored = get_entry-put_entry_self dec p i (fill e d.1 d.2 none) e m' found in
      rw (step, test)
        (
          refl,
          record {
            part = rw stored part;
            room = rw stored tt;
            chunks = x.chunks.1;
            lacking =
                subst (λ q. All (λ y. IsEmptyAt q y.1) (d' ∷ ds)) (sym stored)
                  (lacking_after cs o d.0 d.1 d.2 (d' ∷ ds) x.chunks.1 x.lacking.1 x.distinct.0);
            distinct = x.distinct.1;
            count = rw stored (omega (arith, part.counted, count));
          },
          stored,
        )
