-- ===== src/Transport/Call.antt =====
-- src/protocol/transport.rs: the loop of `call`, a request and its resends. What the loop waits for is
-- a sequence of events with their instants, in nanoseconds: the answer, a permit of `received`, or the
-- timer, with whether the datagrams could then be sent. Which of several comes first is left open. A
-- receipt gives a permit only for a request that carries a record, and receipts that come before the
-- permit of an earlier one is taken give no other.
use auth_kademlia_rs.Prelude.{
  ℕ, ◌+◌, ◌-◌, ◌*◌, ◌^◌, Bool, ◌||◌, Option, none, some, List, [], ◌∷◌, leb, ◌==◌, if◌then◌else◌,
  Bytes,
}
use auth_kademlia_rs.Prelude.KeyMap.{KeyMap}
use auth_kademlia_rs.Messages.{RpcMessage}
use auth_kademlia_rs.Retransmit.{RoundTrip, RoundTrips, max_resends, resend_after, record_sample}

-- nanoseconds
abbrev pub rpc_timeout : ℕ
rpc_timeout = 2_500_000_000

-- A `Duration` counts its seconds in 64 bits, and an `Instant` in 63: past that the code panics.
abbrev pub duration_end : ℕ
duration_end = 2 ^ 64 * 1_000_000_000

abbrev pub instant_end : ℕ
instant_end = 2 ^ 63 * 1_000_000_000

pub data Event : Type 0 where
  answer : Option RpcMessage → Event
  notified : Event
  timer : Bool → Event

pub data Outcome : Type 0 where
  answered : RpcMessage → Outcome
  channel_closed timed_out send_failed panicked : Outcome

-- What does not change during a call.
pub record Request : Type 0 where
  pub peer : Bytes
  pub first_sent : ℕ
  pub answer_measures : Bool

abbrev pub deadline : Request → ℕ
deadline q = q.first_sent + rpc_timeout

module _ (m : KeyMap Bytes RoundTrip) where
  -- `copies` are the instants at which the datagrams were sent, the latest first.
  pub record Call : Type 0 where
    pub wait : ℕ
    pub next_send : ℕ
    pub resends : ℕ
    pub receipts : ℕ
    pub copies : List ℕ
    pub round_trips : RoundTrips m

  -- A turn of the loop, and what the call ends with, if it does.
  abbrev pub Turn : Type 0
  Turn = Call × Option Outcome

  -- After the first copy is sent.
  unfoldable pub start_call : Request → RoundTrips m → Call
  start_call q trips =
      let wait = resend_after m trips q.peer in
      record {
        wait = wait;
        next_send = q.first_sent + wait;
        resends = 0;
        receipts = 0;
        copies = q.first_sent ∷ [];
        round_trips = trips;
      }

  -- Only a request sent once measures the round trip.
  unfoldable pub measure : Request → Call → ℕ → RoundTrips m
  measure q c now =
      if c.resends == 0
      then record_sample m c.round_trips now q.peer (now - q.first_sent)
      else c.round_trips

  unfoldable pub on_answer : Request → Call → ℕ → Option RpcMessage → Turn
  unfolding measure
  on_answer q c now none = (c, some channel_closed)
  on_answer q c now (some response) =
      if q.answer_measures
      then (record c { round_trips = measure q c now }, some (answered response))
      else (c, some (answered response))

  -- `wait *= 2`, then `next_send = now + wait`
  unfoldable pub wait_longer : Call → ℕ → ℕ → Turn
  wait_longer c now wait =
      if leb duration_end (wait * 2) || leb instant_end (now + wait * 2)
      then (c, some panicked)
      else (record c { wait = wait * 2; next_send = now + wait * 2 }, none)

  unfoldable pub on_receipt : Request → Call → ℕ → Turn
  unfolding wait_longer measure
  on_receipt q c now =
      if c.receipts == 0
      then (let trips = measure q c now in
          wait_longer (record c { receipts = 1; round_trips = trips }) now
            (resend_after m trips q.peer))
      else wait_longer (record c { receipts = c.receipts + 1 }) now c.wait

  unfoldable pub on_timer : Request → Call → ℕ → Bool → Turn
  unfolding wait_longer
  on_timer q c now sent =
      if leb (deadline q) now
      then (c, some timed_out)
      else if c.resends == max_resends
      then (record c { next_send = deadline q }, none)
      else if sent
      then wait_longer (record c { resends = c.resends + 1; copies = now ∷ c.copies }) now c.wait
      else (record c { resends = c.resends + 1; copies = now ∷ c.copies }, some send_failed)

  unfoldable pub call_step : Request → Call → ℕ → Event → Turn
  unfolding on_answer on_receipt on_timer
  call_step q c now (answer response) = on_answer q c now response
  call_step q c now notified = on_receipt q c now
  call_step q c now (timer sent) = on_timer q c now sent

  -- The events after the end of a call are not looked at.
  unfoldable pub run_call : Request → Turn → List (ℕ × Event) → Turn
  unfolding call_step
  run_call q turn [] = turn
  run_call q (c, some outcome) (e ∷ events) = (c, some outcome)
  run_call q (c, none) ((now, e) ∷ events) = run_call q (call_step q c now e) events
