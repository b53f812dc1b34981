-- ===== src/Server/Reads.antt =====
-- src/network/read.rs: what a read returns has been verified.
use auth_kademlia_rs.Prelude.{
  ℕ, zero, suc, max, ◌≡◌, ap, subst, ◌∙◌, inl, inr, Bool, true, false, Option, none, some, List, [],
  ◌∷◌, arith, Bool-cases, Option-cases, Bytes,
}
use mathlib.Core.Option.{map as option_map, some-injective}
use auth_kademlia_rs.Prelude.Options.{>>=-eq-some}
use auth_kademlia_rs.Prelude.KeyMap.{KeyMap}
use auth_kademlia_rs.Storage.{Slot}
use auth_kademlia_rs.Storage as Storage
use auth_kademlia_rs.Node.{Node, from_id}
use auth_kademlia_rs.Routing.Table.Neighbors.{find_neighbors}
use auth_kademlia_rs.Crawling.{RawResponse, SpiderProtocol, SpiderCrawl, find_quorum}
use auth_kademlia_rs.Crawling.Search.{
  ValueSearch, found, not_found, incomplete, value_of, without_deadline, search, find_first_valid,
}
use auth_kademlia_rs.Crawling.Silence.{HasApproved, IsFound, search-IsFound}
use auth_kademlia_rs.Protocol.{Instant, KademliaProtocol}
use auth_kademlia_rs.Server.{
  Server, keep_if, filter_value, read_with, is_status_list, verify_value, read_remote, get_remote,
  get_from, get, read_quorum, to_list,
}

keep_if-valid :
    (valid : Bytes → Bool) (w : Bytes) {v : Bytes} → keep_if valid w ≡ some v → valid v ≡ true
unfolding keep_if
keep_if-valid valid w {v} e = elim (Bool-cases (valid w)) [
  | inl f ↦ let g : w ≡ v = ground arith in subst (λ x. valid x ≡ true) g f
  | inr f ↦ absurd (ground arith)
]

filter_value-valid :
    (valid : Bytes → Bool) (o : Option Bytes) {v : Bytes}
    → filter_value valid o ≡ some v
    → valid v ≡ true
unfolding filter_value
filter_value-valid valid none e = absurd (cc)
filter_value-valid valid (some w) e = keep_if-valid valid w e

module _ (valid : Bytes → Bool) (p : SpiderProtocol) where
  approved-valid :
      (l : List (Bytes × RawResponse)) {v : Bytes}
      → HasApproved (keep_if valid) (without_deadline p) v l
      → valid v ≡ true
  approved-valid [] h = absurd h
  approved-valid ((id, (happened, payload)) ∷ l) (inl (w, e, f, g)) = keep_if-valid valid w g
  approved-valid ((id, (happened, payload)) ∷ l) (inr h) = approved-valid l h

  found-valid :
      (fuel : ℕ) (c : SpiderCrawl) (silent : Bool) {v : Bytes}
      → IsFound (keep_if valid) (without_deadline p) v fuel c silent
      → valid v ≡ true
  found-valid zero c silent h = absurd h
  found-valid (suc fuel) c silent (inl h) = approved-valid _ h
  found-valid (suc fuel) c silent (inr (d, r, s, e, h)) = found-valid fuel _ s h

  value_of-found : (s : ValueSearch) {v : Bytes} → value_of s ≡ some v → s ≡ found v
  value_of-found (found w) e = ap found (some-injective _ _ e)
  value_of-found not_found e = absurd (cc)
  value_of-found incomplete e = absurd (cc)

  find_first_valid-valid :
      (fuel : ℕ) (c : SpiderCrawl) {v : Bytes}
      → find_first_valid (keep_if valid) p fuel c ≡ some (some v)
      → valid v ≡ true
  unfolding find_first_valid
  find_first_valid-valid fuel c {v} e =
      elim (Option-cases (search (keep_if valid) (without_deadline p) fuel c false)) [
        | inl f ↦ absurd (ground arith)
        | inr (s, f) ↦
            let g : value_of s ≡ some v = ground arith in
            found-valid fuel c false (
              search-IsFound (keep_if valid) (without_deadline p) fuel c false
                (f ∙ ap some (value_of-found s g)))
      ]

module _ {m : KeyMap Bytes Slot} (s : Server m) where
  option_map-valid :
      (valid : Bytes → Bool) (o : Option (Option Bytes)) {v : Bytes}
      → option_map (filter_value valid) o ≡ some (some v)
      → valid v ≡ true
  option_map-valid valid none e = absurd (cc)
  option_map-valid valid (some o) e = filter_value-valid valid o (some-injective _ _ e)

  read_with-valid :
      (spider : SpiderProtocol) (fuel : ℕ) (key : Bytes) (local_value : Option Bytes)
      (crawl : SpiderCrawl) (b : Bool) {v : Bytes}
      → read_with s spider fuel key local_value crawl b ≡ some (some v)
      → verify_value s key v ≡ true
  unfolding read_with
  read_with-valid spider fuel key local_value crawl false e =
      find_first_valid-valid (verify_value s key) spider fuel crawl e
  read_with-valid spider fuel key local_value crawl true e =
      option_map-valid (verify_value s key)
        (find_quorum fuel spider crawl (to_list local_value) (read_quorum s.alpha) (max s.alpha 1))
        e

  read_remote-valid :
      (spider : SpiderProtocol) (fuel : ℕ) (key : Bytes) (local_value : Option Bytes)
      (nearest : List Node) {v : Bytes}
      → read_remote s spider fuel key local_value nearest ≡ some (some v)
      → verify_value s key v ≡ true
  unfolding read_remote
  read_remote-valid spider fuel key local_value [] e = absurd (cc)
  read_remote-valid spider fuel key local_value (n ∷ l) e =
      read_with-valid spider fuel key local_value _ (is_status_list s key) e

  get_remote-valid :
      (spider : SpiderProtocol) (fuel : ℕ) (now : Instant) (key : Bytes)
      (local_value : Option Bytes) (b : Bool) {v : Bytes} {q : KademliaProtocol m}
      → get_remote s spider fuel now key local_value b ≡ some (some v, q)
      → verify_value s key v ≡ true
  unfolding get_remote
  get_remote-valid spider fuel now key local_value false e = absurd (cc)
  get_remote-valid spider fuel now key local_value true {v} e =
      let (r, f, g) =
        >>=-eq-some (find_neighbors now.secs s.protocol.router (from_id (s.digest key)) none) _ e in
      let (w, h, k) = >>=-eq-some (read_remote s spider fuel key local_value r.0) _ g in
      let same : w ≡ some v = cc in
      read_remote-valid spider fuel key local_value r.0 (h ∙ ap some same)

  get_from-valid :
      (spider : SpiderProtocol) (fuel : ℕ) (now : Instant) (key : Bytes)
      (local_value : Option Bytes) {v : Bytes} {q : KademliaProtocol m}
      → get_from s spider fuel now key local_value ≡ some (some v, q)
      → verify_value s key v ≡ true
  unfolding get_from
  get_from-valid spider fuel now key none e =
      get_remote-valid spider fuel now key none s.listening e
  get_from-valid spider fuel now key (some w) {v} {q} e = elim (Bool-cases (is_status_list s key)) [
    | inl f ↦
        let g : get_remote s spider fuel now key (some w) s.listening ≡ some (some v, q) = cc in
        get_remote-valid spider fuel now key (some w) s.listening g
    | inr f ↦
        let g : keep_if (verify_value s key) w ≡ some v = cc in
        keep_if-valid (verify_value s key) w g
  ]

  -- A read returns no record but one whose binding to the key and whose signature are valid.
  pub get-valid :
      (spider : SpiderProtocol) (fuel : ℕ) (now : Instant) (key v : Bytes) (q : KademliaProtocol m)
      → get s spider fuel now key ≡ some (some v, q)
      → verify_value s key v ≡ true
  unfolding get
  get-valid spider fuel now key v q e =
      get_from-valid spider fuel now key (Storage.get m s.protocol.storage now.nanos (s.digest key))
        e
