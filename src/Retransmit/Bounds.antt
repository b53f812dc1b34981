-- ===== src/Retransmit/Bounds.antt =====
-- src/retransmit.rs: the sizes of the table and of the estimates, and of the waits.
use mathlib.Core.Logic.{∥∥₁_elim}
use mathlib.Core.List.{Perm, Permᴰ, lookup}
use native.Mathlib.Nat.{ℕ_set}
use auth_kademlia_rs.Prelude.{
  ℕ, suc, ◌+◌, ◌*◌, ◌≤◌, ◌<◌, min, ◌≡◌, refl, ap, ◌∙◌, inl, inr, Bool, Option, none, some, List, [],
  ◌∷◌, arith, leb, holds, Bool-cases, Option-cases, Bytes, bytes_discrete, length, remove_first,
  length-retain-le,
}
use auth_kademlia_rs.Prelude.KeyMap.{KeyMap, IsKeyMap}
use auth_kademlia_rs.Retransmit.{
  RoundTrip, RoundTrips, min_resend_after, max_resend_after, wait_for, is_recent, measured_again,
  measured_once, len, insert_measured, record_new, record_found, record_sample,
}

length-permᴰ : {xs ys : List (Bytes × RoundTrip)} → Permᴰ xs ys → length xs ≡ length ys
length-permᴰ Permᴰ.nil = refl
length-permᴰ (Permᴰ.cons e p) = ground (arith, length-permᴰ p)
length-permᴰ (Permᴰ.swap e f) = refl
length-permᴰ (Permᴰ.trans p q) = length-permᴰ p ∙ length-permᴰ q

length-perm : {xs ys : List (Bytes × RoundTrip)} → Perm xs ys → length xs ≡ length ys
length-perm p = ∥∥₁_elim p (ℕ_set _ _) length-permᴰ

abbrev count : Option RoundTrip → ℕ
count none = 0
count (some r) = 1

length-remove_key :
    (key : Bytes) (l : List (Bytes × RoundTrip))
    → length (remove_first (λ e. holds (bytes_discrete key e.0)) l)
        + count (lookup bytes_discrete key l)
      ≡ length l
unfolding lookup
length-remove_key key [] = refl
length-remove_key key (e ∷ l) = ground (arith, length-remove_key key l)

-- Whatever was measured, `wait_for`, the wait that a request starts with, before anything doubles it,
-- is between 20 ms and 1 s, and within those it is at least three times the smoothed round trip.
pub wait_for_bounds :
    (o : Option RoundTrip)
    → (min_resend_after ≤ wait_for o)
      × (wait_for o ≤ max_resend_after)
      × ((r : RoundTrip) → o ≡ some r → min (r.smoothed * 3) max_resend_after ≤ wait_for o)
unfolding wait_for
wait_for_bounds none = ground arith
wait_for_bounds (some r) = ground arith

-- The estimates of an entry are at most `limit`.
abbrev pub IsWithin : ℕ → RoundTrip → Type 0
IsWithin limit r = (r.smoothed ≤ limit) × (r.variation ≤ limit)

measured_again-IsWithin :
    (r : RoundTrip) (now sample limit : ℕ)
    → sample ≤ limit
    → IsWithin limit r
    → IsWithin limit (measured_again r now sample)
unfolding measured_again
measured_again-IsWithin r now sample limit p i = ground arith

measured_once-IsWithin :
    (now sample limit : ℕ) → sample ≤ limit → IsWithin limit (measured_once now sample)
unfolding measured_once
measured_once-IsWithin now sample limit p = ground arith

module _ (m : KeyMap Bytes RoundTrip) where
  -- The table is not over its capacity, and no estimate is over `limit`.
  pub record IsTable (limit : ℕ) (s : RoundTrips m) : Type 0 where
    pub fits : len m s.peers ≤ s.capacity
    pub estimates : (q : Bytes) (r : RoundTrip) → m.get s.peers q ≡ some r → IsWithin limit r

module _ {m : KeyMap Bytes RoundTrip} (laws : IsKeyMap bytes_discrete m) where
  length-insert :
      (peers : m.Map) (key : Bytes) (r : RoundTrip)
      → len m (m.insert peers key r) + count (m.get peers key) ≡ suc (len m peers)
  length-insert peers key r = omega (
    arith,
    length-perm (laws.insert-perm peers key r),
    length-remove_key key (m.entries peers),
    ap count (laws.get-entries peers key),
  )

  length-retain :
      (peers : m.Map) (p : Bytes → RoundTrip → Bool)
      → len m (m.retain_entries p peers) ≤ len m peers
  length-retain peers p = omega (
    arith,
    length-perm (laws.retain-perm p peers),
    length-retain-le (λ e. p e.0 e.1) (m.entries peers),
  )

  insert-estimates :
      (peers : m.Map) (key : Bytes) (new : RoundTrip) (limit : ℕ)
      → IsWithin limit new
      → ((q : Bytes) (r : RoundTrip) → m.get peers q ≡ some r → IsWithin limit r)
      → (q : Bytes) (r : RoundTrip) → m.get (m.insert peers key new) q ≡ some r
      → IsWithin limit r
  insert-estimates peers key new limit i old q r e =
      ground (arith, laws.get-insert peers key q new, old q r)

  retain-estimates :
      (peers : m.Map) (p : Bytes → RoundTrip → Bool) (limit : ℕ)
      → ((q : Bytes) (r : RoundTrip) → m.get peers q ≡ some r → IsWithin limit r)
      → (q : Bytes) (r : RoundTrip) → m.get (m.retain_entries p peers) q ≡ some r
      → IsWithin limit r
  retain-estimates peers p limit old q r e = elim (Option-cases (m.get peers q)) [
    | inl miss ↦ absurd (ground (arith, laws.get-retain p peers q))
    | inr (v, hit) ↦ ground (arith, laws.get-retain p peers q, old q v hit)
  ]

  insert_measured-IsTable :
      (limit : ℕ) (s : RoundTrips m) (now : ℕ) (peer : Bytes) (sample : ℕ)
      → sample ≤ limit
      → len m s.peers < s.capacity
      → m.get s.peers peer ≡ none
      → IsTable m limit s
      → IsTable m limit (insert_measured m s now peer sample)
  unfolding insert_measured
  insert_measured-IsTable limit s now peer sample p room new i = record {
    fits = ground (arith, length-insert s.peers peer (measured_once now sample));
    estimates =
        insert-estimates s.peers peer _ limit (measured_once-IsWithin now sample limit p)
          i.estimates;
  }

  forgotten :
      (peers : m.Map) (now : ℕ) (peer : Bytes)
      → m.get peers peer ≡ none
      → m.get (m.retain_entries (is_recent now) peers) peer ≡ none
  forgotten peers now peer e = rw (laws.get-retain (is_recent now) peers peer, e) refl

  retain-IsTable :
      (limit : ℕ) (s : RoundTrips m) (now : ℕ)
      → IsTable m limit s
      → IsTable m limit (record s { peers = m.retain_entries (is_recent now) s.peers })
  retain-IsTable limit s now i = record {
    fits = ground (arith, length-retain s.peers (is_recent now), i.fits);
    estimates = retain-estimates s.peers (is_recent now) limit i.estimates;
  }

  record_new-IsTable :
      (limit : ℕ) (s : RoundTrips m) (now : ℕ) (peer : Bytes) (sample : ℕ)
      → sample ≤ limit
      → m.get s.peers peer ≡ none
      → IsTable m limit s
      → IsTable m limit (record_new m s now peer sample)
  unfolding record_new
  record_new-IsTable limit s now peer sample p new i =
      elim (Bool-cases (leb s.capacity (len m s.peers))) [
        | inl full ↦
            elim (Bool-cases (leb s.capacity (len m (m.retain_entries (is_recent now) s.peers)))) [
              | inl still ↦ rw (full, still) (retain-IsTable limit s now i)
              | inr room ↦
                  rw (full, room)
                    (insert_measured-IsTable limit
                      (record s { peers = m.retain_entries (is_recent now) s.peers }) now peer
                      sample p (ground arith) (forgotten s.peers now peer new)
                      (retain-IsTable limit s now i))
            ]
        | inr room ↦
            rw room (insert_measured-IsTable limit s now peer sample p (ground arith) new i)
      ]

  -- A measurement keeps the table within its capacity, and every estimate within any bound that the
  -- measurements are within.
  pub record_sample-IsTable :
      (limit : ℕ) (s : RoundTrips m) (now : ℕ) (peer : Bytes) (sample : ℕ)
      → sample ≤ limit
      → IsTable m limit s
      → IsTable m limit (record_sample m s now peer sample)
  unfolding record_sample record_found
  record_sample-IsTable limit s now peer sample p i = elim (Option-cases (m.get s.peers peer)) [
    | inl e ↦ rw e (record_new-IsTable limit s now peer sample p e i)
    | inr (r, e) ↦ rw e (record {
      fits = ground (arith, length-insert s.peers peer (measured_again r now sample), i.fits);
      estimates =
          insert-estimates s.peers peer _ limit
            (measured_again-IsWithin r now sample limit p (i.estimates peer r e)) i.estimates;
    })
  ]
