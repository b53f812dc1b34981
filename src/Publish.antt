-- ===== src/Publish.antt =====
-- src/network/publish.rs: the report of a publication, its outcome, and the replicas that are
-- responsible for a key.
pub mod Laws
pub mod Tests
use auth_kademlia_rs.Prelude.{
  ℕ, ◌+◌, Bool, true, false, not, Option, none, some, List, [], ◌∷◌, ◌++◌, ltb, ◌==◌, if◌then◌else◌,
  Bytes, bytes_eq, take, retain, any,
}
use auth_kademlia_rs.Prelude.Sort.{sort_by_key}
use auth_kademlia_rs.Node.{Node, distance_to}
use auth_kademlia_rs.Messages.{
  StoreStatus, stored, already_stored, conflict, capacity_exceeded, invalid_record,
}

pub record SetReport : Type 0 where
  pub expected_replicas : ℕ
  pub stored_replicas : ℕ
  pub already_present : ℕ
  pub capacity_rejections : ℕ
  pub unavailable_nodes : ℕ
  pub conflict_rejections : ℕ
  pub invalid_rejections : ℕ

abbrev pub report_of : ℕ → ℕ → ℕ → ℕ → ℕ → ℕ → ℕ → SetReport
report_of e s a c u k i = record {
  expected_replicas = e;
  stored_replicas = s;
  already_present = a;
  capacity_rejections = c;
  unavailable_nodes = u;
  conflict_rejections = k;
  invalid_rejections = i;
}

unfoldable pub acknowledged_replicas : SetReport → ℕ
acknowledged_replicas r = r.stored_replicas + r.already_present

unfoldable pub record_status : SetReport → Option StoreStatus → SetReport
record_status r status =
    let e = r.expected_replicas in
    let s = r.stored_replicas in
    let a = r.already_present in
    let c = r.capacity_rejections in
    let u = r.unavailable_nodes in
    let k = r.conflict_rejections in
    let i = r.invalid_rejections in
    elim status [
      | none ↦ report_of e s a c (u + 1) k i
      | some stored ↦ report_of e (s + 1) a c u k i
      | some already_stored ↦ report_of e s (a + 1) c u k i
      | some capacity_exceeded ↦ report_of e s a (c + 1) u k i
      | some conflict ↦ report_of e s a c u (k + 1) i
      | some invalid_record ↦ report_of e s a c u k (i + 1)
    ]

-- The loop over the answers of the replicas.
unfoldable pub record_statuses : SetReport → List (Option StoreStatus) → SetReport
unfolding record_status
record_statuses r [] = r
record_statuses r (status ∷ l) = record_statuses (record_status r status) l

pub data SetRejection : Type 0 where
  existing_record : SetRejection
  invalid : SetRejection
  replica_conflict : SetRejection
  no_capacity : SetRejection
  unavailable : SetRejection
  no_responsible_nodes : SetRejection

pub data SetOutcome : Type 0 where
  complete : SetReport → SetOutcome
  degraded : SetReport → SetOutcome
  rejected : SetRejection → SetReport → SetOutcome

unfoldable pub report : SetOutcome → SetReport
report (complete r) = r
report (degraded r) = r
report (rejected reason r) = r

unfoldable pub classify_set_report : SetReport → SetOutcome
unfolding acknowledged_replicas
classify_set_report r =
    let acknowledged = acknowledged_replicas r in
    if ltb 0 r.conflict_rejections
    then rejected replica_conflict r
    else if ltb 0 r.invalid_rejections
    then rejected invalid r
    else if r.expected_replicas == 0
    then rejected no_responsible_nodes r
    else if acknowledged == r.expected_replicas
    then complete r
    else if ltb 0 acknowledged
    then degraded r
    else if ltb 0 r.capacity_rejections
    then rejected no_capacity r
    else rejected unavailable r

-- `Server::set`: what the outcome is to callers of the older interface.
unfoldable pub answer_of : SetRejection → Option Bool
answer_of existing_record = none
answer_of invalid = none
answer_of replica_conflict = none
answer_of no_capacity = some false
answer_of unavailable = some false
answer_of no_responsible_nodes = some false

unfoldable pub set_answer : SetOutcome → Option Bool
unfolding answer_of
set_answer (complete r) = some true
set_answer (degraded r) = some false
set_answer (rejected reason r) = answer_of reason

-- `dedup_by_key`: of neighbours with one id the first stays.
unfoldable pub dedup_after : Bytes → List Node → List Node
dedup_after id [] = []
dedup_after id (n ∷ l) = if bytes_eq n.id id then dedup_after id l else n ∷ dedup_after n.id l

unfoldable pub dedup_by_id : List Node → List Node
unfolding dedup_after
dedup_by_id [] = []
dedup_by_id (n ∷ l) = n ∷ dedup_after n.id l

unfoldable pub select_responsible_nodes : Node → Node → List Node → ℕ → Bool × List Node
unfolding dedup_by_id
select_responsible_nodes local_node target remote_nodes ksize =
    let l =
      take ksize
        (dedup_by_id (sort_by_key (λ n. distance_to n target) (remote_nodes ++ local_node ∷ []))) in
    (any (λ n. bytes_eq n.id local_node.id) l, retain (λ n. not (bytes_eq n.id local_node.id)) l)
