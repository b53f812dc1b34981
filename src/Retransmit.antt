-- ===== src/Retransmit.antt =====
-- src/retransmit.rs: `RoundTrips`, how long a sender waits before it sends a request again. Times are
-- nanoseconds; a `Duration` of the sizes that occur does not overflow. The `DashMap` of the peers is
-- a parameter (Prelude.KeyMap), and a peer is its address.
pub mod Bounds
pub mod Tests
use auth_kademlia_rs.Prelude.{
  ℕ, ◌+◌, ◌-◌, ◌*◌, ◌/◌, min, max, Bool, true, false, Option, none, some, ltb, leb, if◌then◌else◌,
  Bytes, length,
}
use auth_kademlia_rs.Prelude.KeyMap.{KeyMap}
use auth_kademlia_rs.Storage.{elapsed}

abbrev pub max_resends : ℕ
max_resends = 2

abbrev pub initial_resend_after : ℕ
initial_resend_after = 500_000_000

abbrev pub min_resend_after : ℕ
min_resend_after = 20_000_000

abbrev pub max_resend_after : ℕ
max_resend_after = 1_000_000_000

abbrev pub max_peers : ℕ
max_peers = 4096

abbrev pub forget_after : ℕ
forget_after = 600_000_000_000

pub record RoundTrip : Type 0 where
  pub smoothed : ℕ
  pub variation : ℕ
  pub updated : ℕ

abbrev pub abs_diff : ℕ → ℕ → ℕ
abs_diff a b = (a - b) + (b - a)

-- `wait.clamp(MIN_RESEND_AFTER, MAX_RESEND_AFTER)`
abbrev pub clamp : ℕ → ℕ
clamp wait = min (max wait min_resend_after) max_resend_after

unfoldable pub wait_for : Option RoundTrip → ℕ
wait_for none = initial_resend_after
wait_for (some r) = clamp (max (r.smoothed * 3) (r.smoothed + r.variation * 4))

-- The entry after a further measurement, and after the first.
unfoldable pub measured_again : RoundTrip → ℕ → ℕ → RoundTrip
measured_again r now sample = record {
  smoothed = r.smoothed * 7 / 8 + sample / 8;
  variation = r.variation * 3 / 4 + abs_diff r.smoothed sample / 4;
  updated = now;
}

unfoldable pub measured_once : ℕ → ℕ → RoundTrip
measured_once now sample = record { smoothed = sample; variation = sample / 2; updated = now }

abbrev pub is_recent : ℕ → Bytes → RoundTrip → Bool
is_recent now peer r = ltb (elapsed now r.updated) forget_after

abbrev pub is_some : Option RoundTrip → Bool
is_some none = false
is_some (some r) = true

module _ (m : KeyMap Bytes RoundTrip) where
  pub record RoundTrips : Type 0 where
    pub peers : m.Map
    pub capacity : ℕ

  unfoldable pub with_capacity : ℕ → RoundTrips
  with_capacity capacity = record { peers = m.empty; capacity = capacity }

  unfoldable pub default : RoundTrips
  unfolding with_capacity
  default = with_capacity max_peers

  unfoldable pub resend_after : RoundTrips → Bytes → ℕ
  unfolding wait_for
  resend_after s peer = wait_for (m.get s.peers peer)

  unfoldable pub is_measured : RoundTrips → Bytes → Bool
  is_measured s peer = is_some (m.get s.peers peer)

  -- `self.peers.len()`
  abbrev pub len : m.Map → ℕ
  len peers = length (m.entries peers)

  unfoldable pub insert_measured : RoundTrips → ℕ → Bytes → ℕ → RoundTrips
  unfolding measured_once
  insert_measured s now peer sample = record s {
    peers = m.insert s.peers peer (measured_once now sample);
  }

  unfoldable pub record_new : RoundTrips → ℕ → Bytes → ℕ → RoundTrips
  unfolding insert_measured
  record_new s now peer sample =
      if leb s.capacity (len s.peers)
      then (let s' = record s { peers = m.retain_entries (is_recent now) s.peers } in
          if leb s.capacity (len s'.peers) then s' else insert_measured s' now peer sample)
      else insert_measured s now peer sample

  -- after `get_mut`
  unfoldable pub record_found : Option RoundTrip → RoundTrips → ℕ → Bytes → ℕ → RoundTrips
  unfolding measured_again record_new
  record_found (some r) s now peer sample = record s {
    peers = m.insert s.peers peer (measured_again r now sample);
  }
  record_found none s now peer sample = record_new s now peer sample

  -- `record`, a reserved word here
  unfoldable pub record_sample : RoundTrips → ℕ → Bytes → ℕ → RoundTrips
  unfolding record_found
  record_sample s now peer sample = record_found (m.get s.peers peer) s now peer sample
