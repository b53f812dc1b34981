-- ===== src/Crawling/Rounds.antt =====
-- src/crawling.rs: whom a round asks.
use auth_kademlia_rs.Prelude.{
  ℕ, ◌≤◌, ◌≡◌, inl, inr, Bool, true, false, not, List, [], ◌∷◌, arith, Bool-cases, Bytes, bytes_eq,
  length, retain, any, All, length-take, All-take,
}
use auth_kademlia_rs.Prelude.Unique.{bytes_eq_refl}
use auth_kademlia_rs.Node.{Node}
use auth_kademlia_rs.Node.Heap.{NodeHeap, mark_contacted, get_uncontacted, to_vec}
use auth_kademlia_rs.Crawling.{SpiderCrawl, mark_all, peer_count, selected_peers, next_peers}

-- A peer has been asked in this lookup.
abbrev pub is_contacted : SpiderCrawl → Node → Bool
is_contacted c n = any (bytes_eq n.id) c.nearest.contacted

All-holds_retain : (p : Node → Bool) (l : List Node) → All (λ n. p n ≡ true) (retain p l)
All-holds_retain p [] = tt
All-holds_retain p (n ∷ l) = elim (Bool-cases (p n)) [
  | inl e ↦ rw e (e, All-holds_retain p l)
  | inr e ↦ rw e (All-holds_retain p l)
]

mark_contacted-keeps :
    (h : NodeHeap) (m : Node) (id : Bytes)
    → any (bytes_eq id) h.contacted ≡ true
    → any (bytes_eq id) (mark_contacted h m).contacted ≡ true
unfolding mark_contacted
mark_contacted-keeps h m id e = ground arith

mark_contacted-adds :
    (h : NodeHeap) (m : Node) → any (bytes_eq m.id) (mark_contacted h m).contacted ≡ true
unfolding mark_contacted
mark_contacted-adds h m = elim (Bool-cases (any (bytes_eq m.id) h.contacted)) [
  | inl e ↦ rw e e
  | inr e ↦ rw e (ground (arith, bytes_eq_refl m.id))
]

mark_all-keeps :
    (h : NodeHeap) (l : List Node) (id : Bytes)
    → any (bytes_eq id) h.contacted ≡ true
    → any (bytes_eq id) (mark_all h l).contacted ≡ true
unfolding mark_all
mark_all-keeps h [] id e = e
mark_all-keeps h (m ∷ l) id e =
    mark_all-keeps (mark_contacted h m) l id (mark_contacted-keeps h m id e)

mark_all-adds :
    (h : NodeHeap) (l : List Node)
    → All (λ n. any (bytes_eq n.id) (mark_all h l).contacted ≡ true) l
unfolding mark_all
mark_all-adds h [] = tt
mark_all-adds h (m ∷ l) = (
  mark_all-keeps (mark_contacted h m) l m.id (mark_contacted-adds h m),
  mark_all-adds (mark_contacted h m) l,
)

All-not :
    (p : Node → Bool) (l : List Node) → All (λ n. not (p n) ≡ true) l → All (λ n. p n ≡ false) l
All-not p [] h = tt
All-not p (n ∷ l) h = (ground (arith, h.0), All-not p l h.1)

-- A round asks at most `limit` peers, none of which was asked before, and each of which counts as
-- asked from then on, as does every peer that was asked before.
pub next_peers_once :
    (c : SpiderCrawl) (limit : ℕ)
    → (length (next_peers c limit).0 ≤ limit)
      × All (λ n. is_contacted c n ≡ false) (next_peers c limit).0
      × All (λ n. is_contacted (next_peers c limit).1 n ≡ true) (next_peers c limit).0
      × ((n : Node) → is_contacted c n ≡ true → is_contacted (next_peers c limit).1 n ≡ true)
unfolding next_peers selected_peers peer_count get_uncontacted
next_peers_once c limit = (
  omega (arith, length-take (peer_count c limit) (get_uncontacted c.nearest)),
  All-take (λ n. is_contacted c n ≡ false) (peer_count c limit) (get_uncontacted c.nearest)
      (All-not (is_contacted c) (get_uncontacted c.nearest)
        (All-holds_retain (λ n. not (is_contacted c n)) (to_vec c.nearest))),
  mark_all-adds c.nearest (selected_peers c limit),
  λ n e. mark_all-keeps c.nearest (selected_peers c limit) n.id e,
)
