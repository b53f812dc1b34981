-- ===== src/Publish/Tests.antt =====
-- src/network/publish.rs: the theorems at a report.
use auth_kademlia_rs.Prelude.{◌<◌, ◌≡◌, ◌↔◌}
use auth_kademlia_rs.Publish.{
  SetReport, report_of, acknowledged_replicas, complete, classify_set_report,
}
use auth_kademlia_rs.Publish.Laws.{classify-complete_iff}

abbrev empty_report : SetReport
empty_report = report_of 3 0 0 0 0 0 0

abbrev two_of_two : SetReport
two_of_two = report_of 2 1 1 0 0 0 0

classify-complete_iff_example : (classify_set_report two_of_two ≡ complete two_of_two) ↔ (
    (two_of_two.conflict_rejections ≡ 0)
    × (two_of_two.invalid_rejections ≡ 0)
    × (0 < two_of_two.expected_replicas)
    × (acknowledged_replicas two_of_two ≡ two_of_two.expected_replicas))
classify-complete_iff_example = classify-complete_iff two_of_two
