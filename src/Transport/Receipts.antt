-- ===== src/Transport/Receipts.antt =====
-- src/protocol/transport.rs: what the receipts of a peer do to the wait of a call.
use auth_kademlia_rs.Prelude.{
  ℕ, zero, suc, ◌+◌, ◌*◌, ◌≤◌, ◌<◌, ◌≡◌, refl, ◌⊎◌, inl, inr, false, ◌||◌, Option, none, some, List,
  [], ◌∷◌, map, arith, leb, ◌==◌, Bool-cases, Bytes, length,
}
use auth_kademlia_rs.Prelude.KeyMap.{KeyMap}
use auth_kademlia_rs.Retransmit.{RoundTrip, RoundTrips, resend_after, min_resend_after}
use auth_kademlia_rs.Retransmit.Bounds.{wait_for_bounds}
use auth_kademlia_rs.Transport.Call.{
  Request, Call, Event, notified, Outcome, panicked, deadline, start_call, on_receipt, wait_longer,
  measure, call_step, run_call, duration_end, instant_end,
}

abbrev pub receipts_at : List ℕ → List (ℕ × Event)
receipts_at l = map (λ now. (now, notified)) l

-- The instants follow one another, after one and before another.
abbrev pub IsBurst : ℕ → ℕ → List ℕ → Type 0
IsBurst end last [] = Unit {0}
IsBurst end last (now ∷ l) = (last < now) × (now < end) × IsBurst end now l

-- A wait doubled `n` times.
doubled : ℕ → ℕ → ℕ
doubled w zero = w
doubled w (suc n) = doubled (w * 2) n

module _ (m : KeyMap Bytes RoundTrip) where
  wait_longer-cases :
      (c : Call m) (now wait : ℕ)
      → ((wait_longer m c now wait).1 ≡ some panicked)
        ⊎ (((wait_longer m c now wait).1 ≡ none)
            × ((wait_longer m c now wait).0.wait ≡ wait * 2)
            × ((wait_longer m c now wait).0.receipts ≡ c.receipts)
            × (wait * 2 < instant_end))
  unfolding wait_longer
  wait_longer-cases c now wait =
      elim (Bool-cases (leb duration_end (wait * 2) || leb instant_end (now + wait * 2))) [
        | inl e ↦ inl (rw e refl)
        | inr e ↦ inr (rw e (refl, refl, refl, ground arith))
      ]

  panicked_stays :
      (q : Request) (c : Call m) (o : Option Outcome) (events : List (ℕ × Event))
      → o ≡ some panicked
      → (run_call m q (c, o) events).1 ≡ some panicked
  unfolding run_call
  panicked_stays q c none events e = cc
  panicked_stays q c (some x) [] e = e
  panicked_stays q c (some x) (y ∷ events) e = e

  abbrev HasWaited : ℕ → Call m → Option Outcome → Type 0
  HasWaited w c o =
      (o ≡ some panicked) ⊎ ((o ≡ none) × (w ≤ c.wait) × (c.wait < instant_end) × (1 ≤ c.receipts))

  -- The wait after one more doubling.
  longer_lem :
      (c : Call m) (now wait w : ℕ)
      → w ≤ wait
      → 1 ≤ c.receipts
      → HasWaited (w * 2) (wait_longer m c now wait).0 (wait_longer m c now wait).1
  longer_lem c now wait w p r = elim (wait_longer-cases c now wait) [
    | inl e ↦ inl e
    | inr (e, same, count, high) ↦ inr (e, omega arith, omega arith, omega arith)
  ]

  again_lem :
      (q : Request) (c : Call m) (now w : ℕ)
      → w ≤ c.wait
      → 1 ≤ c.receipts
      → HasWaited (w * 2) (call_step m q c now notified).0 (call_step m q c now notified).1
  unfolding call_step on_receipt
  again_lem q c now w p r =
      let later : (c.receipts == 0) ≡ false = ground arith in
      rw later (longer_lem (record c { receipts = c.receipts + 1 }) now c.wait w p (omega arith))

  first_lem :
      (q : Request) (trips : RoundTrips m) (now : ℕ)
      → HasWaited
          (min_resend_after * 2)
          (call_step m q (start_call m q trips) now notified).0
          (call_step m q (start_call m q trips) now notified).1
  unfolding call_step on_receipt start_call resend_after
  first_lem q trips now =
      longer_lem _ now _ min_resend_after
        (wait_for_bounds (m.get (measure m q (start_call m q trips) now).peers q.peer)).0
        (omega arith)

  -- From a wait of at least `w`, as many receipts as take `w` past the last instant end the call.
  receipts_panic_from :
      (q : Request) (l : List ℕ) (n : ℕ) (c : Call m) (o : Option Outcome) (w : ℕ)
      → length l ≡ n
      → (o ≡ some panicked)
        ⊎ ((o ≡ none) × (w ≤ c.wait) × (c.wait < instant_end) × (1 ≤ c.receipts))
      → instant_end ≤ doubled w n
      → (run_call m q (c, o) (receipts_at l)).1 ≡ some panicked
  unfolding run_call doubled
  receipts_panic_from q l n c o w e (inl stop) big = panicked_stays q c o (receipts_at l) stop
  receipts_panic_from q l n c (some x) w e (inr (f, low, high, seen)) big = cc
  receipts_panic_from q [] zero c none w e (inr (f, low, high, seen)) big = absurd (omega arith)
  receipts_panic_from q [] (suc n) c none w e (inr r) big = absurd (omega arith)
  receipts_panic_from q (now ∷ l) zero c none w e (inr r) big = absurd (omega arith)
  receipts_panic_from q (now ∷ l) (suc n) c none w e (inr (f, low, high, seen)) big =
      receipts_panic_from q l n (call_step m q c now notified).0 (call_step m q c now notified).1
        (w * 2) (omega arith) (again_lem q c now w low seen) big

  -- A call of a request with a record, to which nothing happens but 70 wake-ups by receipts, one
  -- after the other before the deadline, ends by a panic: each doubles the wait.
  pub receipts_panic :
      (q : Request) (trips : RoundTrips m) (l : List ℕ)
      → q.answer_measures ≡ false
      → IsBurst (deadline q) q.first_sent l
      → length l ≡ 70
      → (run_call m q (start_call m q trips, none) (receipts_at l)).1 ≡ some panicked
  unfolding run_call doubled
  receipts_panic q trips [] carries burst e = absurd (omega arith)
  receipts_panic q trips (now ∷ l) carries burst e =
      receipts_panic_from q l 69 (call_step m q (start_call m q trips) now notified).0
        (call_step m q (start_call m q trips) now notified).1 (min_resend_after * 2) (omega arith)
        (first_lem q trips now) (omega arith)
