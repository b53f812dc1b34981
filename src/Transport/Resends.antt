-- ===== src/Transport/Resends.antt =====
-- src/protocol/transport.rs: how often a request is sent, and that a call ends.
use auth_kademlia_rs.Prelude.{
  ℕ, ◌+◌, ◌*◌, ◌≤◌, ◌≡◌, refl, inl, inr, Bool, ◌||◌, Option, none, some, List, [], ◌∷◌, ◌++◌, arith,
  leb, ◌==◌, Bool-cases, Bytes, length,
}
use auth_kademlia_rs.Prelude.KeyMap.{KeyMap}
use auth_kademlia_rs.Messages.{RpcMessage}
use auth_kademlia_rs.Retransmit.{RoundTrip, RoundTrips, max_resends}
use auth_kademlia_rs.Transport.Call.{
  Request, Call, Event, answer, notified, timer, Outcome, deadline, start_call, on_answer,
  on_receipt, on_timer, wait_longer, call_step, run_call, timed_out, duration_end, instant_end,
}

module _ (m : KeyMap Bytes RoundTrip) where
  -- Each resend is counted, and there are at most `max_resends`.
  abbrev IsCounted : Call m → Type 0
  IsCounted c = (c.resends ≤ max_resends) × (length c.copies ≡ c.resends + 1)

  wait_longer-IsCounted :
      (c : Call m) (now wait : ℕ) → IsCounted c → IsCounted (wait_longer m c now wait).0
  unfolding wait_longer
  wait_longer-IsCounted c now wait p =
      elim (Bool-cases (leb duration_end (wait * 2) || leb instant_end (now + wait * 2))) [
        | inl e ↦ rw e p
        | inr e ↦ rw e p
      ]

  on_answer-IsCounted :
      (q : Request) (c : Call m) (now : ℕ) (o : Option RpcMessage)
      → IsCounted c
      → IsCounted (on_answer m q c now o).0
  unfolding on_answer
  on_answer-IsCounted q c now none p = p
  on_answer-IsCounted q c now (some a) p = elim (Bool-cases q.answer_measures) [
    | inl e ↦ rw e p
    | inr e ↦ rw e p
  ]

  on_receipt-IsCounted :
      (q : Request) (c : Call m) (now : ℕ) → IsCounted c → IsCounted (on_receipt m q c now).0
  unfolding on_receipt
  on_receipt-IsCounted q c now p = elim (Bool-cases (c.receipts == 0)) [
    | inl e ↦ rw e (wait_longer-IsCounted _ now _ p)
    | inr e ↦ rw e (wait_longer-IsCounted _ now _ p)
  ]

  on_timer-IsCounted :
      (q : Request) (c : Call m) (now : ℕ) (sent : Bool)
      → IsCounted c
      → IsCounted (on_timer m q c now sent).0
  unfolding on_timer
  on_timer-IsCounted q c now sent p = elim (Bool-cases (leb (deadline q) now)) [
    | inl late ↦ rw late p
    | inr early ↦ elim (Bool-cases (c.resends == max_resends)) [
      | inl last ↦ rw (early, last) p
      | inr more ↦
          let again = record c { resends = c.resends + 1; copies = now ∷ c.copies } in
          let counted : IsCounted again = (ground (arith, p.0), omega (arith, p.1)) in
          elim (Bool-cases sent) [
            | inl e ↦ rw (early, more, e) (wait_longer-IsCounted again now c.wait counted)
            | inr e ↦ rw (early, more, e) counted
          ]
    ]
  ]

  call_step-IsCounted :
      (q : Request) (c : Call m) (now : ℕ) (e : Event)
      → IsCounted c
      → IsCounted (call_step m q c now e).0
  unfolding call_step
  call_step-IsCounted q c now (answer o) p = on_answer-IsCounted q c now o p
  call_step-IsCounted q c now notified p = on_receipt-IsCounted q c now p
  call_step-IsCounted q c now (timer sent) p = on_timer-IsCounted q c now sent p

  run_call-IsCounted :
      (q : Request) (events : List (ℕ × Event)) (c : Call m) (o : Option Outcome)
      → IsCounted c
      → IsCounted (run_call m q (c, o) events).0
  unfolding run_call
  run_call-IsCounted q [] c o p = p
  run_call-IsCounted q (e ∷ events) c (some outcome) p = p
  run_call-IsCounted q ((now, e) ∷ events) c none p =
      run_call-IsCounted q events (call_step m q c now e).0 (call_step m q c now e).1
        (call_step-IsCounted q c now e p)

  late_timer :
      (q : Request) (c : Call m) (now : ℕ) (sent : Bool)
      → deadline q ≤ now
      → (call_step m q c now (timer sent)).1 ≡ some timed_out
  unfolding call_step on_timer
  late_timer q c now sent p = ground arith

  run_call_ends :
      (q : Request) (events : List (ℕ × Event)) (c : Call m) (o : Option Outcome) (now : ℕ)
      (sent : Bool)
      → deadline q ≤ now
      → (outcome : Outcome) × ((run_call m q (c, o) (events ++ (now, timer sent) ∷ [])).1
          ≡ some outcome)
  unfolding run_call
  run_call_ends q [] c none now sent p = (timed_out, late_timer q c now sent p)
  run_call_ends q [] c (some outcome) now sent p = (outcome, refl)
  run_call_ends q (e ∷ events) c (some outcome) now sent p = (outcome, refl)
  run_call_ends q ((t, e) ∷ events) c none now sent p =
      run_call_ends q events (call_step m q c t e).0 (call_step m q c t e).1 now sent p

  -- Whatever happens during a call, in whatever order, the request has been sent at most three times,
  -- and the call is over once its timer has fired at or after the deadline.
  pub run_call_bounds :
      (q : Request) (trips : RoundTrips m) (events : List (ℕ × Event)) (now : ℕ) (sent : Bool)
      → deadline q ≤ now
      → (length (run_call m q (start_call m q trips, none) events).0.copies ≤ 3)
        × ((outcome : Outcome) × ((run_call m q
                (start_call m q trips, none)
                (events ++ (now, timer sent) ∷ [])).1
              ≡ some outcome))
  unfolding start_call
  run_call_bounds q trips events now sent p =
      let (few, counted) =
        run_call-IsCounted q events (start_call m q trips) none (omega arith, refl) in
      (omega (arith, few, counted), run_call_ends q events (start_call m q trips) none now sent p)
