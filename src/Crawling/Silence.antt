-- ===== src/Crawling/Silence.antt =====
-- src/crawling.rs: what the end of a search says of the answers.
use auth_kademlia_rs.Prelude.{
  ℕ, zero, suc, ◌≡◌, refl, ap, subst, ◌∙◌, ◌≢◌, ◌⊎◌, inl, inr, Bool, true, false, Option, none,
  some, List, [], ◌∷◌, ◌++◌, arith, Bool-cases, Option-cases, Bytes, All,
}
use mathlib.Core.Option.{some-injective}
use auth_kademlia_rs.Crawling.{
  FindPayload, RawResponse, get_value, SpiderCrawl, remove_failed, next_peers, usize_max,
}
use auth_kademlia_rs.Node.Heap.{have_contacted_all}
use auth_kademlia_rs.Crawling.Search.{
  found, not_found, SearchNetwork, RoundEnd, accepted, exhausted, search_answers, search_round,
  search_end, search,
}

module _ (accept : Bytes → Option Bytes) (net : SearchNetwork) where
  -- The peer answered, and not with a value that the caller approves.
  abbrev pub IsRefusal : Bytes × RawResponse → Type 0
  IsRefusal (id, (happened, payload)) =
      (happened ≡ true) × ((v : Bytes) → get_value payload ≡ some v → accept v ≡ none)

  -- The answers of the next round, and the lookup after it.
  abbrev pub round_answers : SpiderCrawl → List (Bytes × RawResponse)
  round_answers c = net.protocol.answers c.rounds (next_peers c usize_max).0

  -- Some answer bears a value for which the caller gave this one.
  abbrev pub HasApproved : Bytes → List (Bytes × RawResponse) → Type 0
  HasApproved a [] = ⊥
  HasApproved a ((id, (happened, payload)) ∷ l) =
      ((v : Bytes) × (happened ≡ true) × (get_value payload ≡ some v) × (accept v ≡ some a))
      ⊎ HasApproved a l

  refusals_lem :
      (l : List (Bytes × RawResponse)) (c : SpiderCrawl) (to_remove : List Bytes) (silent : Bool)
      {d : SpiderCrawl} {r : List Bytes}
      → search_answers accept net c l to_remove silent ≡ exhausted d r false
      → (silent ≡ false) × All IsRefusal l
  unfolding search_answers get_value
  refusals_lem [] c to_remove silent e = (cc, tt)
  refusals_lem ((id, (false, payload)) ∷ l) c to_remove silent e =
      let (quiet, rest) = refusals_lem l c (to_remove ++ id ∷ []) true e in absurd (cc)
  refusals_lem ((id, (true, FindPayload.nodes m)) ∷ l) c to_remove silent e =
      let (s, rest) = refusals_lem l _ to_remove silent e in (s, ((refl, λ v f. cc), rest))
  refusals_lem ((id, (true, FindPayload.empty)) ∷ l) c to_remove silent e =
      let (s, rest) = refusals_lem l _ to_remove silent e in (s, ((refl, λ v f. cc), rest))
  refusals_lem ((id, (true, FindPayload.value w)) ∷ l) c to_remove silent {d} {r} e =
      elim (Option-cases (accept w)) [
        | inl refused ↦
            let e' : search_answers accept net c l to_remove silent ≡ exhausted d r false =
              ground arith in
            let (s, rest) = refusals_lem l c to_remove silent e' in
            (s, ((refl, λ v f. subst (λ x. accept x ≡ none) (some-injective w v f) refused), rest))
        | inr (a, yes_accepted) ↦ absurd (ground arith)
      ]

  approved_lem :
      (l : List (Bytes × RawResponse)) (c : SpiderCrawl) (to_remove : List Bytes) (silent : Bool)
      {a : Bytes}
      → search_answers accept net c l to_remove silent ≡ accepted a
      → HasApproved a l
  unfolding search_answers get_value
  approved_lem [] c to_remove silent e = absurd (cc)
  approved_lem ((id, (false, payload)) ∷ l) c to_remove silent e =
      inr (approved_lem l c (to_remove ++ id ∷ []) true e)
  approved_lem ((id, (true, FindPayload.nodes m)) ∷ l) c to_remove silent e =
      inr (approved_lem l _ to_remove silent e)
  approved_lem ((id, (true, FindPayload.empty)) ∷ l) c to_remove silent e =
      inr (approved_lem l _ to_remove silent e)
  approved_lem ((id, (true, FindPayload.value w)) ∷ l) c to_remove silent {a} e =
      elim (Option-cases (accept w)) [
        | inl refused ↦
            let e' : search_answers accept net c l to_remove silent ≡ accepted a = ground arith in
            inr (approved_lem l c to_remove silent e')
        | inr (b, yes_accepted) ↦
            let same : b ≡ a = ground arith in inl (w, refl, refl, yes_accepted ∙ ap some same)
      ]

  -- Every round of the search from `c` until all the peers of its shortlist had been contacted waited
  -- for all its answers, and got refusals alone.
  abbrev pub IsQuiet : ℕ → SpiderCrawl → Type 0
  IsQuiet zero c = ⊥
  IsQuiet (suc fuel) c =
      (have_contacted_all c.nearest ≡ true)
      ⊎ ((net.cut c.rounds ≡ false)
          × All IsRefusal (round_answers c)
          × ((d : SpiderCrawl) × (r : List Bytes) × (search_round accept net c false
                ≡ exhausted d r false)
              × IsQuiet fuel (remove_failed d r)))

  -- A round of the search from `c` got an answer with a value for which the caller gave `a`.
  abbrev pub IsFound : Bytes → ℕ → SpiderCrawl → Bool → Type 0
  IsFound a zero c silent = ⊥
  IsFound a (suc fuel) c silent =
      HasApproved a (round_answers c)
      ⊎ ((d : SpiderCrawl) × (r : List Bytes) × (s : Bool) × (search_round accept net c silent
            ≡ exhausted d r s)
          × IsFound a fuel (remove_failed d r) s)

  not_found_end : (silent : Bool) → search_end accept net silent ≡ not_found → silent ≡ false
  not_found_end true e = absurd (cc)
  not_found_end false e = refl

  found_end : (silent : Bool) {a : Bytes} → search_end accept net silent ≢ found a
  found_end true e = cc
  found_end false e = cc

  IsCase : RoundEnd → Type 0
  IsCase e =
      ((a : Bytes) × (e ≡ accepted a))
      ⊎ ((d : SpiderCrawl) × (r : List Bytes) × (s : Bool) × (e ≡ exhausted d r s))

  round_cases : (e : RoundEnd) → IsCase e
  unfolding IsCase
  round_cases (accepted a) = inl (a, refl)
  round_cases (exhausted d r s) = inr (d, r, s, refl)

  IsQuiet-round :
      (fuel : ℕ) {d : SpiderCrawl} {r : List Bytes} (c : SpiderCrawl) (silent : Bool)
      → net.cut c.rounds ≡ false
      → search_round accept net c silent ≡ exhausted d r false
      → IsQuiet fuel (remove_failed d r)
      → (silent ≡ false) × IsQuiet (suc fuel) c
  unfolding search_round
  IsQuiet-round fuel {d} {r} c silent whole g rest =
      let (s, refusals) = refusals_lem (round_answers c) (next_peers c usize_max).1 [] silent g in
      let g' = subst (λ x. search_round accept net c x ≡ exhausted d r false) s g in
      (s, inr (whole, refusals, (d, r, g', rest)))

  -- A search that ends without a value and without doubt has asked all the peers of its shortlist,
  -- and no answer of a round was missing or bore a value that the caller approves.
  pub search-IsQuiet :
      (fuel : ℕ) (c : SpiderCrawl) (silent : Bool)
      → search accept net fuel c silent ≡ some not_found
      → (silent ≡ false) × IsQuiet fuel c
  unfolding search IsCase
  search-IsQuiet zero c silent e = absurd (cc)
  search-IsQuiet (suc fuel) c silent e = elim (Bool-cases (have_contacted_all c.nearest)) [
    | inl all ↦
        let f : search_end accept net silent ≡ not_found = cc in (not_found_end silent f, inl all)
    | inr more ↦ elim (Bool-cases (net.late c.rounds)) [
      | inl late ↦ absurd (cc)
      | inr early ↦ elim (round_cases (search_round accept net c silent)) [
        | inl (a, g) ↦ absurd (cc)
        | inr (d, r, s, g) ↦ elim (Bool-cases (net.cut c.rounds)) [
          | inl cut ↦ absurd (cc)
          | inr whole ↦
              let h : search accept net fuel (remove_failed d r) s ≡ some not_found = cc in
              let (quiet, rest) = search-IsQuiet fuel (remove_failed d r) s h in
              IsQuiet-round fuel c silent whole
                (subst (λ x. search_round accept net c silent ≡ exhausted d r x) quiet g) rest
        ]
      ]
    ]
  ]

  -- A search ends with a value only for an answer, in one of its rounds, that bore a value for which
  -- the caller gave it.
  pub search-IsFound :
      (fuel : ℕ) (c : SpiderCrawl) (silent : Bool) {a : Bytes}
      → search accept net fuel c silent ≡ some (found a)
      → IsFound a fuel c silent
  unfolding search search_round IsCase
  search-IsFound zero c silent e = absurd (cc)
  search-IsFound (suc fuel) c silent {a} e = elim (Bool-cases (have_contacted_all c.nearest)) [
    | inl all ↦ absurd (found_end silent {a = a} (cc))
    | inr more ↦ elim (Bool-cases (net.late c.rounds)) [
      | inl late ↦ absurd (cc)
      | inr early ↦ elim (round_cases (search_round accept net c silent)) [
        | inl (b, g) ↦
            let same : b ≡ a = cc in
            inl (
              approved_lem (round_answers c) (next_peers c usize_max).1 [] silent
                (g ∙ ap accepted same))
        | inr (d, r, s, g) ↦ elim (Bool-cases (net.cut c.rounds)) [
          | inl cut ↦ absurd (cc)
          | inr whole ↦
              let h : search accept net fuel (remove_failed d r) s ≡ some (found a) = cc in
              inr (d, r, s, g, search-IsFound fuel (remove_failed d r) s h)
        ]
      ]
    ]
  ]
