-- ===== src/StoreCheck/Unanimity.antt =====
-- src/protocol/store_check.rs: what the lookup of an empty replica has heard when it lets a record in.
use auth_kademlia_rs.Prelude.{
  ℕ, zero, suc, ◌≡◌, refl, ap, ◌≢◌, ◌⊎◌, inl, inr, Bool, true, false, Option, none, some, List, [],
  ◌∷◌, arith, Bytes, All,
}
use mathlib.Core.Option.{map as option_map, some-injective}
use auth_kademlia_rs.Node.{Node}
use auth_kademlia_rs.Crawling.{
  RawResponse, get_value, SpiderCrawl, remove_failed, next_peers, usize_max,
}
use auth_kademlia_rs.Crawling.Search.{
  SearchNetwork, ValueSearch, found, not_found, incomplete, exhausted, search_round,
}
use auth_kademlia_rs.Crawling.Silence.{IsRefusal, round_answers, IsQuiet, search-IsQuiet}
use auth_kademlia_rs.Node.Heap.{have_contacted_all}
use auth_kademlia_rs.StoreCheck.{none_or_same, copy_of, accept_other}
use auth_kademlia_rs.StoreCheck.Lookup.{crawl_for, ask_network}

-- The peer answered, with no hash but `own`.
abbrev pub IsAgreeing : Bytes → Bytes × RawResponse → Type 0
IsAgreeing own (id, (happened, payload)) =
    (happened ≡ true) × ((v : Bytes) → get_value payload ≡ some v → v ≡ own)

-- There is an answer of the peer.
abbrev pub Occurs : Bytes → List (Bytes × RawResponse) → Type 0
Occurs id [] = ⊥
Occurs id ((peer, response) ∷ l) = (peer ≡ id) ⊎ Occurs id l

-- There is an answer of the peer, and it agrees.
abbrev pub HasAgreed : Bytes → Bytes → List (Bytes × RawResponse) → Type 0
HasAgreed own id [] = ⊥
HasAgreed own id ((peer, response) ∷ l) =
    ((peer ≡ id) × IsAgreeing own (peer, response)) ⊎ HasAgreed own id l

-- A round that the deadline does not cut short ends with an answer, or the failure, of each peer asked.
abbrev pub AwaitsAll : SearchNetwork → Type 0
AwaitsAll net =
    (r : ℕ) (l : List Node)
    → net.cut r ≡ false
    → All (λ n. Occurs n.id (net.protocol.answers r l)) l

-- In a lookup from `c`, each peer asked has agreed, and nobody has not, until the peers of its
-- shortlist have all been asked.
abbrev pub IsUnanimous : Bytes → SearchNetwork → ℕ → SpiderCrawl → Type 0
IsUnanimous own net zero c = ⊥
IsUnanimous own net (suc fuel) c =
    (have_contacted_all c.nearest ≡ true)
    ⊎ (All (λ n. HasAgreed own n.id (round_answers (accept_other own) net c))
          (next_peers c usize_max).0
        × All (IsAgreeing own) (round_answers (accept_other own) net c)
        × ((d : SpiderCrawl) × (r : List Bytes) × (search_round (accept_other own) net c false
              ≡ exhausted d r false)
            × IsUnanimous own net fuel (remove_failed d r)))

accept_other-same : (own v : Bytes) → accept_other own v ≡ none → v ≡ own
unfolding accept_other
accept_other-same own v e = ground arith

refusals-IsAgreeing :
    (own : Bytes) (net : SearchNetwork) (l : List (Bytes × RawResponse))
    → All (IsRefusal (accept_other own) net) l
    → All (IsAgreeing own) l
refusals-IsAgreeing own net [] h = tt
refusals-IsAgreeing own net ((id, (happened, payload)) ∷ l) h =
    ((h.0.0, λ v f. accept_other-same own v (h.0.1 v f)), refusals-IsAgreeing own net l h.1)

Occurs-HasAgreed :
    (own id : Bytes) (l : List (Bytes × RawResponse))
    → All (IsAgreeing own) l
    → Occurs id l
    → HasAgreed own id l
Occurs-HasAgreed own id [] h o = o
Occurs-HasAgreed own id ((peer, response) ∷ l) h (inl e) = inl (e, h.0)
Occurs-HasAgreed own id ((peer, response) ∷ l) h (inr o) = inr (Occurs-HasAgreed own id l h.1 o)

peers-HasAgreed :
    (own : Bytes) (answers : List (Bytes × RawResponse)) (l : List Node)
    → All (IsAgreeing own) answers
    → All (λ n. Occurs n.id answers) l
    → All (λ n. HasAgreed own n.id answers) l
peers-HasAgreed own answers [] h o = tt
peers-HasAgreed own answers (n ∷ l) h o =
    (Occurs-HasAgreed own n.id answers h o.0, peers-HasAgreed own answers l h o.1)

quiet-IsUnanimous :
    (own : Bytes) (net : SearchNetwork) (fuel : ℕ) (c : SpiderCrawl)
    → AwaitsAll net
    → IsQuiet (accept_other own) net fuel c
    → IsUnanimous own net fuel c
quiet-IsUnanimous own net zero c awaits h = h
quiet-IsUnanimous own net (suc fuel) c awaits (inl h) = inl h
quiet-IsUnanimous own net (suc fuel) c awaits (inr (whole, refusals, (d, r, e, rest))) =
    let answers = round_answers (accept_other own) net c in
    let agreeing = refusals-IsAgreeing own net answers refusals in
    let asked = (next_peers c usize_max).0 in
    inr (
      peers-HasAgreed own answers asked agreeing (awaits c.rounds asked whole),
      agreeing,
      (d, r, e, quiet-IsUnanimous own net fuel (remove_failed d r) awaits rest),
    )

copy_of-same : (s : ValueSearch) → copy_of s ≡ none_or_same → s ≡ not_found
unfolding copy_of
copy_of-same (found v) e = absurd (cc)
copy_of-same not_found e = refl
copy_of-same incomplete e = absurd (cc)

option_map-same :
    (s : Option ValueSearch) → option_map copy_of s ≡ some none_or_same → s ≡ some not_found
option_map-same none e = absurd (cc)
option_map-same (some s) e = ap some (copy_of-same s (some-injective _ _ e))

-- If a round that its deadline does not cut short brings an answer or the failure of each peer asked,
-- then where the lookup of an empty replica finds no other record in the network, there was a contact
-- to ask, and in every round until all the peers of the shortlist had been asked, each peer asked
-- answered, and nobody with a hash but that of the record.
pub ask_network-IsUnanimous :
    (net : SearchNetwork) (fuel : ℕ) (own : Bytes) (nearest : List Node) (among_closest : Bool)
    (target : Node) (ksize alpha : ℕ)
    → AwaitsAll net
    → ask_network net fuel own (nearest, among_closest) target ksize alpha ≡ some none_or_same
    → (nearest ≢ [])
      × IsUnanimous own net fuel (crawl_for (nearest, among_closest) target ksize alpha)
unfolding ask_network
ask_network-IsUnanimous net fuel own [] among_closest target ksize alpha awaits e = absurd (cc)
ask_network-IsUnanimous net fuel own (n ∷ l) among_closest target ksize alpha awaits e =
    let crawl = crawl_for (n ∷ l, among_closest) target ksize alpha in
    let quiet = search-IsQuiet (accept_other own) net fuel crawl false (option_map-same _ e) in
    (cc, quiet-IsUnanimous own net fuel crawl awaits quiet.1)
