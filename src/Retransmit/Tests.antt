-- ===== src/Retransmit/Tests.antt =====
-- src/retransmit.rs: the theorems at small inputs.
use auth_kademlia_rs.Prelude.{◌*◌, ◌≤◌, min, ◌≡◌, some, [], ◌∷◌, arith, Bytes, bytes_discrete}
use auth_kademlia_rs.Prelude.KeyMap.{KeyMap}
use auth_kademlia_rs.Prelude.KeyMap.Assoc.{assoc, assoc-IsKeyMap}
use auth_kademlia_rs.Retransmit.{
  RoundTrip, RoundTrips, with_capacity, wait_for, record_sample, min_resend_after, max_resend_after,
}
use mathlib.Core.List.{lookup}
use auth_kademlia_rs.Retransmit.Bounds.{IsTable, record_sample-IsTable, wait_for_bounds}

abbrev peers_table : KeyMap Bytes RoundTrip
peers_table = assoc bytes_discrete

abbrev one_peer : RoundTrips peers_table
one_peer = with_capacity peers_table 1

abbrev steady : RoundTrip
steady = record { smoothed = 100_000_000; variation = 0; updated = 0 }

wait_for_bounds_example :
    (min_resend_after ≤ wait_for (some steady))
    × (wait_for (some steady) ≤ max_resend_after)
    × ((r : RoundTrip)
        → some steady ≡ some r
        → min (r.smoothed * 3) max_resend_after ≤ wait_for (some steady))
wait_for_bounds_example = wait_for_bounds (some steady)

one_peer-IsTable : IsTable peers_table 10 one_peer
unfolding with_capacity lookup
one_peer-IsTable = record { fits = ground arith; estimates = λ q r e. absurd (ground arith) }

record_sample-IsTable_example :
    IsTable peers_table 10 (record_sample peers_table one_peer 5 (1 ∷ []) 7)
record_sample-IsTable_example =
    record_sample-IsTable (assoc-IsKeyMap bytes_discrete) 10 one_peer 5 (1 ∷ []) 7 (omega arith)
      one_peer-IsTable
