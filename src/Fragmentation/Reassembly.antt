-- ===== src/Fragmentation/Reassembly.antt =====
-- src/fragmentation.rs: `accept_fragment`. A message that leaves the reassembly map is the one whose
-- fragments came, whatever other traffic comes between them.
use mathlib.Core.List.{flatten}
use auth_kademlia_rs.Prelude.{
  ℕ, ◌≡◌, refl, ◌∙◌, inl, inr, Bool, true, false, ◌&&◌, Option, none, some, List, [], ◌∷◌, arith,
  ◌==◌, if◌then◌else◌, holds, Bool-cases, Option-cases, Bytes, length, get_elem?,
}
use auth_kademlia_rs.Fragmentation.{
  ReassemblyEntry, FragHeader, new, insert, ReassemblyMap, get_entry, remove_entry, put_entry,
  open_entry, finish, add_chunk, accept_fragment,
}
use auth_kademlia_rs.Fragmentation.Entry.{
  IsPartial, new-IsPartial, insert-IsPartial, assemble_complete, insert_complete,
}

-- The entry under the key, if any, is a part of the message `cs`.
abbrev pub IsPart : List Bytes → Option ReassemblyEntry → Type 0
IsPart cs none = Unit {0}
IsPart cs (some e) = IsPartial cs e

module _ {Peer : Type 0} (dec : Discrete Peer) where
  get_entry-remove_entry :
      (p q : Peer) (i j : ℕ) (m : ReassemblyMap dec)
      → get_entry dec q j (remove_entry dec p i m)
        ≡ (if holds (dec q p) && j == i then none else get_entry dec q j m)
  unfolding get_entry remove_entry
  get_entry-remove_entry p q i j [] = ground arith
  get_entry-remove_entry p q i j (b ∷ m) = ground (arith, get_entry-remove_entry p q i j m)

  pub get_entry-remove_entry_self :
      (p : Peer) (i : ℕ) (m : ReassemblyMap dec) → get_entry dec p i (remove_entry dec p i m) ≡ none
  get_entry-remove_entry_self p i m = ground (arith, get_entry-remove_entry p p i i m)

  pub get_entry-put_entry_self :
      (p : Peer) (i : ℕ) (e old : ReassemblyEntry) (m : ReassemblyMap dec)
      → get_entry dec p i m ≡ some old
      → get_entry dec p i (put_entry dec p i e m) ≡ some e
  unfolding get_entry put_entry
  get_entry-put_entry_self p i e old [] h = cc
  get_entry-put_entry_self p i e old (b ∷ m) h =
      ground (arith, get_entry-put_entry_self p i e old m)

  get_entry-put_entry_ne :
      (p q : Peer) (i j : ℕ) (e : ReassemblyEntry) (m : ReassemblyMap dec)
      → (holds (dec q p) && j == i) ≡ false
      → get_entry dec q j (put_entry dec p i e m) ≡ get_entry dec q j m
  unfolding get_entry put_entry
  get_entry-put_entry_ne p q i j e [] h = refl
  get_entry-put_entry_ne p q i j e (b ∷ m) h = ground (arith, get_entry-put_entry_ne p q i j e m h)

  finish_ne :
      (m : ReassemblyMap dec) (p q : Peer) (i j : ℕ) (e : ReassemblyEntry) (complete : Bool)
      → (holds (dec q p) && j == i) ≡ false
      → get_entry dec q j (finish dec m p i (e, complete)).0 ≡ get_entry dec q j m
  unfolding finish
  finish_ne m p q i j e true h = get_entry-remove_entry p q i j m ∙ rw h
  finish_ne m p q i j e false h = get_entry-put_entry_ne p q i j e m h

  add_chunk_ne :
      (m : ReassemblyMap dec) (p q : Peer) (j : ℕ) (header : FragHeader) (chunk : Bytes)
      → (holds (dec q p) && j == header.frag_id) ≡ false
      → get_entry dec q j (add_chunk dec m p header chunk).0 ≡ get_entry dec q j m
  unfolding add_chunk
  add_chunk_ne m p q j header chunk h = elim (Option-cases (get_entry dec p header.frag_id m)) [
    | inl e ↦ rw (e, add_chunk)
    | inr (old, e) ↦
        rw (e, add_chunk)
          (elim (Bool-cases (old.total == header.total)) [
            | inl same ↦ rw same (
                let (e', complete) = insert old header.index chunk in
                finish_ne m p q header.frag_id j e' complete h)
            | inr other ↦ rw other (get_entry-remove_entry p q header.frag_id j m ∙ rw h)
          ])
  ]

  open_entry_ne :
      (now : ℕ) (m m' : ReassemblyMap dec) (p q : Peer) (j : ℕ) (header : FragHeader)
      → (holds (dec q p) && j == header.frag_id) ≡ false
      → open_entry dec now m p header ≡ some m'
      → get_entry dec q j m' ≡ get_entry dec q j m
  unfolding open_entry get_entry
  open_entry_ne now m m' p q j header h e = ground arith

  -- A fragment of another message leaves the entry as it is.
  pub accept_fragment_ne :
      (now : ℕ) (m : ReassemblyMap dec) (p q : Peer) (j : ℕ) (header : FragHeader) (chunk : Bytes)
      → (holds (dec q p) && j == header.frag_id) ≡ false
      → get_entry dec q j (accept_fragment dec now m p header chunk).0 ≡ get_entry dec q j m
  unfolding accept_fragment
  accept_fragment_ne now m p q j header chunk h =
      elim (Option-cases (open_entry dec now m p header)) [
        | inl e ↦ rw (e, accept_fragment)
        | inr (m', e) ↦
            rw (e, accept_fragment)
              (add_chunk_ne m' p q j header chunk h ∙ open_entry_ne now m m' p q j header h e)
      ]

  -- The outcome of a fragment of the message `cs` itself: what comes out is the whole message, and
  -- what stays is a part of it.
  pub record IsHonest (cs : List Bytes) (p : Peer) (i : ℕ) (r : ReassemblyMap dec × Option Bytes)
      : Type 0 where
    pub part : IsPart cs (get_entry dec p i r.0)
    pub message : (payload : Bytes) → r.1 ≡ some payload → payload ≡ flatten cs

  finish-IsHonest :
      (cs : List Bytes) (m : ReassemblyMap dec) (p : Peer) (i : ℕ) (old e : ReassemblyEntry)
      (complete : Bool)
      → get_entry dec p i m ≡ some old
      → IsPartial cs e
      → (complete ≡ true → e.received ≡ e.total)
      → IsHonest cs p i (finish dec m p i (e, complete))
  unfolding finish
  finish-IsHonest cs m p i old e true h part done = record {
    part = rw (get_entry-remove_entry_self p i m) tt;
    message = λ payload r. ground (arith, assemble_complete cs e part (done refl));
  }
  finish-IsHonest cs m p i old e false h part done = record {
    part = rw (get_entry-put_entry_self p i e old m h) part;
    message = λ payload r. cc;
  }

  add_chunk-IsHonest :
      (cs : List Bytes) (m : ReassemblyMap dec) (p : Peer) (header : FragHeader) (chunk : Bytes)
      → header.total ≡ length cs
      → get_elem? cs header.index ≡ some chunk
      → IsPart cs (get_entry dec p header.frag_id m)
      → IsHonest cs p header.frag_id (add_chunk dec m p header chunk)
  unfolding add_chunk
  add_chunk-IsHonest cs m p header chunk t h part =
      elim (Option-cases (get_entry dec p header.frag_id m)) [
        | inl e ↦ rw (e, add_chunk) (record { part = rw e tt; message = λ payload r. cc })
        | inr (old, e) ↦
            let old_part : IsPartial cs old = rw e at part in
            let same : (old.total == header.total) ≡ true = ground (arith, old_part.whole) in
            rw (e, add_chunk, same)
              (finish-IsHonest cs m p header.frag_id old (insert old header.index chunk).0
                (insert old header.index chunk).1 e
                (insert-IsPartial cs old header.index chunk old_part h)
                (insert_complete old header.index chunk))
      ]

  pub open_entry_found :
      (now : ℕ) (m m' : ReassemblyMap dec) (p : Peer) (header : FragHeader) (old : ReassemblyEntry)
      → get_entry dec p header.frag_id m ≡ some old
      → open_entry dec now m p header ≡ some m'
      → get_entry dec p header.frag_id m' ≡ some old
  unfolding open_entry
  open_entry_found now m m' p header old found e = ground arith

  pub open_entry_missing :
      (now : ℕ) (m m' : ReassemblyMap dec) (p : Peer) (header : FragHeader)
      → get_entry dec p header.frag_id m ≡ none
      → open_entry dec now m p header ≡ some m'
      → get_entry dec p header.frag_id m' ≡ some (new header.total now)
  unfolding open_entry get_entry
  open_entry_missing now m m' p header missing e = ground arith

  open_entry-IsPart :
      (cs : List Bytes) (now : ℕ) (m m' : ReassemblyMap dec) (p : Peer) (header : FragHeader)
      → header.total ≡ length cs
      → open_entry dec now m p header ≡ some m'
      → IsPart cs (get_entry dec p header.frag_id m)
      → IsPart cs (get_entry dec p header.frag_id m')
  open_entry-IsPart cs now m m' p header t e part =
      elim (Option-cases (get_entry dec p header.frag_id m)) [
        | inl missing ↦
            rw (open_entry_missing now m m' p header missing e, t) (new-IsPartial cs now)
        | inr (old, found) ↦ rw (open_entry_found now m m' p header old found e) (rw found at part)
      ]

  -- A fragment of the message `cs`, when its entry holds a part of `cs` or there is none: the entry
  -- holds a part of `cs` afterwards too, and a message that comes out is `cs` joined in order.
  pub accept_fragment-IsHonest :
      (cs : List Bytes) (now : ℕ) (m : ReassemblyMap dec) (p : Peer) (header : FragHeader)
      (chunk : Bytes)
      → header.total ≡ length cs
      → get_elem? cs header.index ≡ some chunk
      → IsPart cs (get_entry dec p header.frag_id m)
      → IsHonest cs p header.frag_id (accept_fragment dec now m p header chunk)
  unfolding accept_fragment
  accept_fragment-IsHonest cs now m p header chunk t h part =
      elim (Option-cases (open_entry dec now m p header)) [
        | inl e ↦ rw (e, accept_fragment) (record { part = part; message = λ payload r. cc })
        | inr (m', e) ↦
            rw (e, accept_fragment)
              (add_chunk-IsHonest cs m' p header chunk t h
                (open_entry-IsPart cs now m m' p header t e part))
      ]
