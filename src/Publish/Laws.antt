-- ===== src/Publish/Laws.antt =====
-- src/network/publish.rs: what the report counts and what the outcome means.
use auth_kademlia_rs.Prelude.{
  ℕ, ◌+◌, ◌<◌, ◌≡◌, ◌↔◌, Option, none, some, List, [], ◌∷◌, arith, length,
}
use auth_kademlia_rs.Messages.{
  StoreStatus, stored, already_stored, conflict, capacity_exceeded, invalid_record,
}
use auth_kademlia_rs.Publish.{
  SetReport, acknowledged_replicas, record_status, record_statuses, complete, classify_set_report,
}

abbrev pub counted : SetReport → ℕ
counted r =
    acknowledged_replicas r
    + r.capacity_rejections
    + r.unavailable_nodes
    + r.conflict_rejections
    + r.invalid_rejections

record_status_counts :
    (r : SetReport) (s : Option StoreStatus) → counted (record_status r s) ≡ counted r + 1
unfolding record_status acknowledged_replicas
record_status_counts r none = omega arith
record_status_counts r (some stored) = omega arith
record_status_counts r (some already_stored) = omega arith
record_status_counts r (some conflict) = omega arith
record_status_counts r (some capacity_exceeded) = omega arith
record_status_counts r (some invalid_record) = omega arith

-- Every answer is counted once, whatever it is.
pub record_statuses_counts :
    (r : SetReport) (l : List (Option StoreStatus))
    → counted (record_statuses r l) ≡ counted r + length l
unfolding record_statuses
record_statuses_counts r [] = omega arith
record_statuses_counts r (s ∷ l) =
    omega (arith, record_statuses_counts (record_status r s) l, record_status_counts r s)

-- A publication is complete exactly if no replica reported a conflict or an invalid record, there
-- are replicas, and as many acknowledged it as were expected.
pub classify-complete_iff :
    (r : SetReport)
    → (classify_set_report r ≡ complete r) ↔ (
        (r.conflict_rejections ≡ 0)
        × (r.invalid_rejections ≡ 0)
        × (0 < r.expected_replicas)
        × (acknowledged_replicas r ≡ r.expected_replicas))
unfolding classify_set_report
classify-complete_iff r = ground arith
