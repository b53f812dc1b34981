-- ===== src/Crawling/Quorum.antt =====
-- src/crawling.rs: what a winner of `find_quorum` rests on.
use auth_kademlia_rs.Prelude.{
  ℕ, zero, suc, ◌-◌, ◌*◌, ◌≤◌, ◌<◌, ◌≡◌, refl, sym, ap, subst, ◌∙◌, inl, inr, true, false, ◌||◌,
  some, List, [], ◌∷◌, ◌++◌, arith, ◌==◌, Bool-cases, Option-cases, Bytes, length, length-append,
}
use mathlib.Core.List.{append_assoc, append-nil}
use auth_kademlia_rs.Node.{Node}
use auth_kademlia_rs.Node.Heap.{have_contacted_all}
use auth_kademlia_rs.Crawling.{
  RawResponse, nodes, value, empty, get_node_list, SpiderProtocol, SpiderCrawl, add_reported,
  next_peers, take_votes, quorum_round, strict_quorum_value, find_quorum,
}
use auth_kademlia_rs.Crawling.Votes.{occurrences, strict_quorum_value_iff}
use auth_kademlia_rs.Crawling.Rounds.{next_peers_once}

-- The values that the answers bear, in their order.
unfoldable pub values_in : List (Bytes × RawResponse) → List Bytes
values_in [] = []
values_in ((id, (true, value v)) ∷ l) = v ∷ values_in l
values_in ((id, (true, nodes m)) ∷ l) = values_in l
values_in ((id, (true, empty)) ∷ l) = values_in l
values_in ((id, (false, payload)) ∷ l) = values_in l

length-values_in : (l : List (Bytes × RawResponse)) → length (values_in l) ≤ length l
unfolding values_in
length-values_in [] = omega arith
length-values_in ((id, (true, value v)) ∷ l) = omega (arith, length-values_in l)
length-values_in ((id, (true, nodes m)) ∷ l) = omega (arith, length-values_in l)
length-values_in ((id, (true, empty)) ∷ l) = omega (arith, length-values_in l)
length-values_in ((id, (false, payload)) ∷ l) = omega (arith, length-values_in l)

take_votes-values_in :
    (p : SpiderProtocol) (l : List (Bytes × RawResponse)) (c : SpiderCrawl)
    (to_remove values : List Bytes)
    → (take_votes p c l to_remove values).2 ≡ values ++ values_in l
unfolding take_votes values_in
take_votes-values_in p [] c to_remove values = sym (append-nil values)
take_votes-values_in p ((id, (false, payload)) ∷ l) c to_remove values =
    take_votes-values_in p l c (to_remove ++ id ∷ []) values
take_votes-values_in p ((id, (true, value v)) ∷ l) c to_remove values =
    take_votes-values_in p l c to_remove (values ++ v ∷ [])
    ∙ append_assoc values (v ∷ []) (values_in l)
take_votes-values_in p ((id, (true, nodes m)) ∷ l) c to_remove values =
    take_votes-values_in p l (add_reported p c (get_node_list (nodes m))) to_remove values
take_votes-values_in p ((id, (true, empty)) ∷ l) c to_remove values =
    take_votes-values_in p l (add_reported p c (get_node_list empty)) to_remove values

-- What the peers answer that a round asks, with room for `remaining` more values.
abbrev pub round_answers : SpiderProtocol → SpiderCrawl → ℕ → List (Bytes × RawResponse)
round_answers p c remaining = p.answers c.rounds (next_peers c remaining).0

-- `votes` are the values at hand and those in the answers to some rounds from `c` on, each of which
-- asks for no more values than `maximum` leaves.
pub data IsPoll (p : SpiderProtocol) (maximum : ℕ)
    : SpiderCrawl → List Bytes → List Bytes → Type 0 where
  closed : {c : SpiderCrawl} {votes : List Bytes} → IsPoll p maximum c votes votes
  round :
      {c d : SpiderCrawl} {values votes : List Bytes}
      → (quorum_round p c values (maximum - length values)).0 ≡ d
      → IsPoll p maximum d (values ++ values_in (round_answers p c (maximum - length values))) votes
      → IsPoll p maximum c values votes

-- `v` has at least `m` and more than half of the votes, of which there are at most `n`.
abbrev pub IsMajority : ℕ → ℕ → Bytes → List Bytes → Type 0
IsMajority m n v l = (m ≤ occurrences v l) × (length l < 2 * occurrences v l) × (length l ≤ n)

-- If no round brings more answers than peers asked, and the values at hand are no more than
-- `maximum_votes`, then a value that `find_quorum` returns has at least `minimum_votes` and more
-- than half of the votes, which are at most `maximum_votes`: the values at hand, and behind them
-- those that the peers answered in the rounds, as they came.
pub find_quorum-IsMajority :
    (fuel : ℕ) (p : SpiderProtocol) (c : SpiderCrawl) (values : List Bytes)
    (minimum_votes maximum_votes : ℕ) (v : Bytes)
    → ((r : ℕ) (l : List Node) → length (p.answers r l) ≤ length l)
    → length values ≤ maximum_votes
    → find_quorum fuel p c values minimum_votes maximum_votes ≡ some (some v)
    → (votes : List Bytes) × IsPoll p maximum_votes c values votes
      × IsMajority minimum_votes maximum_votes v votes
unfolding find_quorum quorum_round
find_quorum-IsMajority zero p c values m M v h q e = absurd (cc)
find_quorum-IsMajority (suc fuel) p c values m M v h q e =
    elim (Option-cases (strict_quorum_value values m)) [
      | inr (w, f) ↦
          let z : w ≡ v = ground arith in
          let y = strict_quorum_value_iff values m v in
          let x = y.0 (f ∙ ap some z) in (values, closed, (x.0, x.1, q))
      | inl f ↦ elim (Bool-cases ((M - length values) == 0 || have_contacted_all c.nearest)) [
        | inl g ↦ absurd (ground arith)
        | inr g ↦
            let n = next_peers c (M - length values) in
            let l = round_answers p c (M - length values) in
            let r = quorum_round p c values (M - length values) in
            let grown : r.1 ≡ values ++ values_in l = take_votes-values_in p l n.1 [] values in
            let d : find_quorum fuel p r.0 r.1 m M ≡ some (some v) = ground arith in
            let d' = subst (λ x. find_quorum fuel p r.0 x m M ≡ some (some v)) grown d in
            let b : length (values ++ values_in l) ≤ M = omega (
              arith,
              length-append values (values_in l),
              length-values_in l,
              h c.rounds n.0,
              (next_peers_once c (M - length values)).0,
              q,
            ) in
            let (votes, poll, x) =
              find_quorum-IsMajority fuel p r.0 (values ++ values_in l) m M v h b d' in
            (votes, round refl poll, x)
      ]
    ]
