-- ===== src/Crawling/Search.antt =====
-- src/crawling.rs: `ValueSpiderCrawl::search` and `find_first_valid`. The network is the interface
-- `SearchNetwork`: the answers that a round gets, in their order, whether the deadline passes before
-- the others come, and whether it has passed when a round is to start. What `search` notes of the
-- silent peers at its deadline does not change its result, and is `Client.note_no_answer`.
use auth_kademlia_rs.Prelude.{
  ℕ, zero, suc, Bool, true, false, Option, none, some, List, [], ◌∷◌, ◌++◌, if◌then◌else◌, Bytes,
}
use auth_kademlia_rs.Crawling.{
  FindPayload, RawResponse, get_node_list, SpiderProtocol, SpiderCrawl, add_reported, remove_failed,
  next_peers, usize_max,
}
use auth_kademlia_rs.Node.Heap.{have_contacted_all}

pub data ValueSearch : Type 0 where
  found : Bytes → ValueSearch
  not_found : ValueSearch
  incomplete : ValueSearch

pub record SearchNetwork : Type 0 where
  pub protocol : SpiderProtocol
  pub cut : ℕ → Bool
  pub late : ℕ → Bool

-- What the answers of a round leave: the lookup, the peers that did not answer, and whether there
-- were any; or the value that ends it.
pub data RoundEnd : Type 0 where
  accepted : Bytes → RoundEnd
  exhausted : SpiderCrawl → List Bytes → Bool → RoundEnd

-- `asking_everyone`
unfoldable pub asking_everyone : SpiderCrawl → SpiderCrawl
asking_everyone c = record c { ask_everyone = true }

module _ (accept : Bytes → Option Bytes) (net : SearchNetwork) where
  unfoldable pub search_answers :
      SpiderCrawl → List (Bytes × RawResponse) → List Bytes → Bool → RoundEnd
  unfolding add_reported get_node_list
  search_answers c [] to_remove silent = exhausted c to_remove silent
  search_answers c ((id, (false, payload)) ∷ l) to_remove silent =
      search_answers c l (to_remove ++ id ∷ []) true
  search_answers c ((id, (true, FindPayload.value v)) ∷ l) to_remove silent =
      let rest = search_answers c l to_remove silent in
      elim (accept v) [ some a ↦ accepted a | none ↦ rest ]
  search_answers c ((id, (true, FindPayload.nodes m)) ∷ l) to_remove silent =
      search_answers (add_reported net.protocol c (get_node_list (FindPayload.nodes m))) l to_remove
        silent
  search_answers c ((id, (true, FindPayload.empty)) ∷ l) to_remove silent =
      search_answers (add_reported net.protocol c (get_node_list FindPayload.empty)) l to_remove
        silent

  unfoldable pub search_round : SpiderCrawl → Bool → RoundEnd
  unfolding next_peers search_answers
  search_round c silent =
      let n = next_peers c usize_max in
      search_answers n.1 (net.protocol.answers c.rounds n.0) [] silent

  -- How the loop ends when every peer of the shortlist has been contacted.
  abbrev pub search_end : Bool → ValueSearch
  search_end true = incomplete
  search_end false = not_found

  abbrev pub after_round :
      Bool → (SpiderCrawl → Bool → Option ValueSearch) → RoundEnd → Option ValueSearch
  after_round is_cut again (accepted v) = some (found v)
  after_round is_cut again (exhausted c to_remove silent) =
      if is_cut then some incomplete else again (remove_failed c to_remove) silent

  unfoldable pub search : ℕ → SpiderCrawl → Bool → Option ValueSearch
  unfolding search_round
  search zero c silent = none
  search (suc fuel) c silent =
      if have_contacted_all c.nearest
      then some (search_end silent)
      else if net.late c.rounds
      then some incomplete
      else after_round (net.cut c.rounds) (λ d s. search fuel d s) (search_round c silent)

-- The result of `search`, if it is a value; `find_first_valid` has no deadline.
abbrev pub value_of : ValueSearch → Option Bytes
value_of (found v) = some v
value_of not_found = none
value_of incomplete = none

abbrev pub without_deadline : SpiderProtocol → SearchNetwork
without_deadline p = record { protocol = p; cut = λ r. false; late = λ r. false }

unfoldable pub find_first_valid :
    (Bytes → Option Bytes) → SpiderProtocol → ℕ → SpiderCrawl → Option (Option Bytes)
unfolding search
find_first_valid accept p fuel c = elim (search accept (without_deadline p) fuel c false) [
  | none ↦ none
  | some s ↦ some (value_of s)
]
