-- ===== src/Fragmentation/Tests.antt =====
-- src/fragmentation.rs: a message cut in three, its fragments in another order, and the theorems at
-- these inputs.
use mathlib.Core.List.{flatten}
use auth_kademlia_rs.Prelude.{
  ◌≡◌, refl, true, none, some, List, [], ◌∷◌, map, arith, ℕ_discrete, Bytes, All,
}
use auth_kademlia_rs.Fragmentation.{
  encode_fragments, parse_fragment, ReassemblyMap, Arrival, messages, accept_fragment, get_entry,
  peer_entries, ReassemblyEntry,
}
use auth_kademlia_rs.Fragmentation.Wire.{IsEncoded, parse_fragment-encode_fragments}
use auth_kademlia_rs.Fragmentation.Delivery.{is_under, messages_intact}
use auth_kademlia_rs.Fragmentation.Completion.{own}
use auth_kademlia_rs.Fragmentation.Limits.{IsBounded, accept_fragment-IsBounded}

abbrev parts : List Bytes
parts = (1 ∷ 2 ∷ []) ∷ (3 ∷ []) ∷ (4 ∷ []) ∷ []

abbrev no_entries : ReassemblyMap ℕ_discrete
no_entries = []

-- The last fragment first, and one from another peer in between.
abbrev arrivals : List (Arrival ℕ_discrete)
arrivals =
    own ℕ_discrete 7 1 3 (0, 2, 4 ∷ [])
    ∷ own ℕ_discrete 8 1 2 (1, 0, 9 ∷ [])
    ∷ own ℕ_discrete 7 1 3 (2, 0, 1 ∷ 2 ∷ [])
    ∷ own ℕ_discrete 7 1 3 (3, 0, 1 ∷ 2 ∷ [])
    ∷ own ℕ_discrete 7 1 3 (4, 1, 3 ∷ [])
    ∷ []

messages_run : map (λ o. o.1) (messages ℕ_discrete no_entries arrivals) ≡ (1 ∷ 2 ∷ 3 ∷ 4 ∷ []) ∷ []
unfolding messages accept_fragment ℕ_discrete
messages_run = refl

round_trip_runs :
    map parse_fragment (encode_fragments 42 (5 ∷ 6 ∷ []))
    ≡ some (record { frag_id = 42; index = 0; total = 1 }, 5 ∷ 6 ∷ []) ∷ []
unfolding parse_fragment encode_fragments
round_trip_runs = refl

parse_fragment-encode_fragments_example :
    (cs : List Bytes) × IsEncoded 42 (5 ∷ 6 ∷ []) cs (encode_fragments 42 (5 ∷ 6 ∷ []))
parse_fragment-encode_fragments_example =
    parse_fragment-encode_fragments 42 (5 ∷ 6 ∷ []) (omega arith) (omega arith)

messages_intact_example :
    All
      (λ o. is_under ℕ_discrete 7 1 o.0 ≡ true → o.1 ≡ flatten parts)
      (messages ℕ_discrete no_entries arrivals)
unfolding get_entry ℕ_discrete
messages_intact_example = messages_intact ℕ_discrete parts 7 1 no_entries arrivals tt (
  (λ _. (refl, refl)),
  ((λ e. cc), ((λ _. (refl, refl)), ((λ _. (refl, refl)), ((λ _. (refl, refl)), tt)))),
)

no_entries-IsBounded : IsBounded ℕ_discrete no_entries
unfolding peer_entries
no_entries-IsBounded = record { total = omega arith; each = λ q. omega arith }

accept_fragment-IsBounded_example :
    IsBounded ℕ_discrete
      (accept_fragment ℕ_discrete 0 no_entries 7
        (record { frag_id = 1; index = 0; total = 3 })
        (1 ∷ [])).0
accept_fragment-IsBounded_example =
    accept_fragment-IsBounded ℕ_discrete 0 no_entries 7
      (record { frag_id = 1; index = 0; total = 3 }) (1 ∷ []) no_entries-IsBounded

abbrev begun : ReassemblyEntry
begun = record { total = 3; received = 0; chunks = none ∷ none ∷ none ∷ []; created_at = 0 }
