-- ===== src/Fragmentation/Entry.antt =====
-- src/fragmentation.rs: `ReassemblyEntry`. The chunks of a message may come in any order, and more
-- than once.
use mathlib.Core.List.{flatten, append_assoc, append-nil}
use auth_kademlia_rs.Prelude.{
  ℕ, zero, suc, ◌+◌, ◌≤◌, ◌≡◌, refl, sym, ap, ◌∙◌, true, Option, none, some, List, [], ◌∷◌, ◌++◌,
  arith, Bytes, length, get_elem?, set, replicate,
}
use auth_kademlia_rs.Fragmentation.{ReassemblyEntry, new, fill, insert, assemble_chunks, assemble}

-- A slot is empty or holds the chunk of its index.
abbrev pub IsSlot : Bytes → Option Bytes → Type 0
IsSlot c none = Unit {0}
IsSlot c (some x) = x ≡ c

abbrev pub Matches : List Bytes → List (Option Bytes) → Type 0
Matches [] [] = Unit {0}
Matches [] (s ∷ ss) = ⊥
Matches (c ∷ cs) [] = ⊥
Matches (c ∷ cs) (s ∷ ss) = IsSlot c s × Matches cs ss

abbrev pub count_filled : List (Option Bytes) → ℕ
count_filled [] = 0
count_filled (none ∷ ss) = count_filled ss
count_filled (some c ∷ ss) = suc (count_filled ss)

-- Some of the chunks `cs` of a message have arrived, and nothing else.
pub record IsPartial (cs : List Bytes) (e : ReassemblyEntry) : Type 0 where
  pub slots : Matches cs e.chunks
  pub counted : e.received ≡ count_filled e.chunks
  pub whole : e.total ≡ length cs

Matches-replicate : (cs : List Bytes) → Matches cs (replicate (length cs) none)
Matches-replicate [] = tt
Matches-replicate (c ∷ cs) = (tt, Matches-replicate cs)

pub count_filled-replicate : (n : ℕ) → count_filled (replicate n none) ≡ 0
count_filled-replicate zero = refl
count_filled-replicate (suc n) = count_filled-replicate n

pub new-IsPartial : (cs : List Bytes) (now : ℕ) → IsPartial cs (new (length cs) now)
unfolding new
new-IsPartial cs now = record {
  slots = Matches-replicate cs;
  counted = sym (count_filled-replicate (length cs));
  whole = refl;
}

pub Matches-set :
    (cs : List Bytes) (ss : List (Option Bytes)) (i : ℕ) (c : Bytes)
    → Matches cs ss
    → get_elem? cs i ≡ some c
    → Matches cs (set ss i (some c))
Matches-set [] [] i c h e = tt
Matches-set [] (s ∷ ss) i c h e = absurd h
Matches-set (x ∷ cs) [] i c h e = h
Matches-set (x ∷ cs) (s ∷ ss) zero c h e = (ground arith, h.1)
Matches-set (x ∷ cs) (s ∷ ss) (suc i) c h e = (h.0, Matches-set cs ss i c h.1 e)

pub Matches-get :
    (cs : List Bytes) (ss : List (Option Bytes)) (i : ℕ) (c : Bytes)
    → Matches cs ss
    → get_elem? cs i ≡ some c
    → (s : Option Bytes) × (get_elem? ss i ≡ some s)
Matches-get [] [] i c h e = cc
Matches-get [] (s ∷ ss) i c h e = absurd h
Matches-get (x ∷ cs) [] i c h e = absurd h
Matches-get (x ∷ cs) (s ∷ ss) zero c h e = (s, refl)
Matches-get (x ∷ cs) (s ∷ ss) (suc i) c h e = Matches-get cs ss i c h.1 e

pub count_filled-set :
    (ss : List (Option Bytes)) (i : ℕ) (c : Bytes)
    → get_elem? ss i ≡ some none
    → count_filled (set ss i (some c)) ≡ count_filled ss + 1
count_filled-set [] i c e = cc
count_filled-set (none ∷ ss) zero c e = omega arith
count_filled-set (some x ∷ ss) zero c e = cc
count_filled-set (none ∷ ss) (suc i) c e = count_filled-set ss i c e
count_filled-set (some x ∷ ss) (suc i) c e = omega (arith, count_filled-set ss i c e)

pub length-Matches :
    (cs : List Bytes) (ss : List (Option Bytes)) → Matches cs ss → length ss ≡ length cs
length-Matches [] [] h = refl
length-Matches [] (s ∷ ss) h = absurd h
length-Matches (c ∷ cs) [] h = absurd h
length-Matches (c ∷ cs) (s ∷ ss) h = ap suc (length-Matches cs ss h.1)

count_filled-le : (ss : List (Option Bytes)) → count_filled ss ≤ length ss
count_filled-le [] = omega arith
count_filled-le (none ∷ ss) = omega (arith, count_filled-le ss)
count_filled-le (some x ∷ ss) = omega (arith, count_filled-le ss)

-- With every slot filled the chunks are joined in the order of their indices.
assemble_chunks-flatten :
    (cs : List Bytes) (ss : List (Option Bytes)) (out : Bytes)
    → Matches cs ss
    → count_filled ss ≡ length ss
    → assemble_chunks out ss ≡ some (out ++ flatten cs)
unfolding assemble_chunks flatten
assemble_chunks-flatten [] [] out h e = simp append-nil
assemble_chunks-flatten [] (s ∷ ss) out h e = absurd h
assemble_chunks-flatten (c ∷ cs) [] out h e = absurd h
assemble_chunks-flatten (c ∷ cs) (none ∷ ss) out h e = absurd (omega (arith, count_filled-le ss))
assemble_chunks-flatten (c ∷ cs) (some x ∷ ss) out h e =
    assemble_chunks-flatten cs ss (out ++ x) h.1 (omega arith)
    ∙ ap some (append_assoc out x (flatten cs) ∙ ap (λ y. out ++ (y ++ flatten cs)) h.0)

pub insert-IsPartial :
    (cs : List Bytes) (e : ReassemblyEntry) (i : ℕ) (c : Bytes)
    → IsPartial cs e
    → get_elem? cs i ≡ some c
    → IsPartial cs (insert e i c).0
unfolding insert
insert-IsPartial cs e i c p h =
    let (slot, at) = Matches-get cs e.chunks i c p.slots h in rw (at, insert) (by_slot slot at)
  where
    by_slot :
        (slot : Option Bytes) → get_elem? e.chunks i ≡ some slot → IsPartial cs (fill e i c slot)
    by_slot none at = record {
      slots = Matches-set cs e.chunks i c p.slots h;
      counted = omega (arith, p.counted, count_filled-set e.chunks i c at);
      whole = p.whole;
    }
    by_slot (some old) at = p

-- A complete entry holds the message.
pub assemble_complete :
    (cs : List Bytes) (e : ReassemblyEntry)
    → IsPartial cs e
    → e.received ≡ e.total
    → assemble e ≡ some (flatten cs)
unfolding assemble
assemble_complete cs e p h =
    assemble_chunks-flatten cs e.chunks [] p.slots
      (omega (arith, p.counted, p.whole, length-Matches cs e.chunks p.slots))

-- `insert` answers `true` only when every chunk is there.
pub insert_complete :
    (e : ReassemblyEntry) (i : ℕ) (c : Bytes)
    → (insert e i c).1 ≡ true
    → (insert e i c).0.received ≡ (insert e i c).0.total
unfolding insert
insert_complete e i c h = ground arith
