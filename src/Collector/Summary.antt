-- ===== src/Collector/Summary.antt =====
-- `summarizeCollectorRecords` of ui/src/collector-management.js: one loop counts the records outside
-- the live coverage, a second one the live records, and the counts decide the status.
pub mod Tally
pub mod Partition
pub mod Verdict
use otel_opamp_control_plane.Prelude.{
  ℕ, zero, suc, ◌+◌, ◌-◌, ◌*◌, ◌/◌, ◌%◌, ◌≤◌, ◌<◌, Char, code, String, ◌≡◌, refl, sym, ap, ◌∙◌,
  subst, ◌≢◌, ◌↔◌, ◌⊎◌, inl, inr, Bool, true, false, not, ◌&&◌, ◌||◌, Option, none, some, List, [],
  ◌∷◌, ◌++◌, map, reverse, foldl, arith, ◌==◌, starts_with, eq_iff, eq_refl, ltb, leb, eqb,
  is_empty, empty_lem, if◌then◌else◌, Bool-cases, Option-cases, leb→le, ltb→lt, tests, length,
  get_elem?, any, all, filter, count, length-filter, All, All-filter, All-append, count-le,
  All-of_count_eq, count_congr, All-intro, All-map, All-zip,
}
use otel_opamp_control_plane.Js.{Value, is, is_false}
use otel_opamp_control_plane.Coverage.{DeploymentRecord, Coverage, deployment_coverage}
use otel_opamp_control_plane.Collector.Record.{collector_record_status}

pub data CollectorStatus : Type 0 where
  no_live_targets removed base_applied base_failed base_pending : CollectorStatus
  applied applied_offline failed partial config_pending not_in_use : CollectorStatus

-- `counts` of the source, without the status.
pub record Counts : Type 0 where
  pub observed : ℕ
  pub matched : ℕ
  pub desired_matched : ℕ
  pub removal_matched : ℕ
  pub historical : ℕ
  pub degraded : ℕ
  pub unknown : ℕ
  pub applied : ℕ
  pub offline : ℕ
  pub pending : ℕ
  pub failed : ℕ
  pub superseded : ℕ
  pub base_pending : ℕ
  pub base_applied : ℕ
  pub base_failed : ℕ
  pub removed : ℕ

abbrev pub covers : DeploymentRecord → Bool
covers r = (deployment_coverage r).counts

abbrev pub no_counts : List DeploymentRecord → Counts
no_counts records = record {
  observed = length records;
  matched = length (filter covers records);
  desired_matched = 0;
  removal_matched = 0;
  historical = 0;
  degraded = 0;
  unknown = 0;
  applied = 0;
  offline = 0;
  pending = 0;
  failed = 0;
  superseded = 0;
  base_pending = 0;
  base_applied = 0;
  base_failed = 0;
  removed = 0;
}

-- One round of the first loop.
unfoldable pub tally_outside : Counts → DeploymentRecord → Counts
tally_outside s r =
    let coverage = deployment_coverage r in
    if coverage.counts
    then s
    else if coverage.state == "HISTORICAL"
    then record s { historical = s.historical + 1 }
    else if coverage.state == "IN_SCOPE_DEGRADED"
    then record s { degraded = s.degraded + 1 }
    else record s { unknown = s.unknown + 1 }

-- One round of the second.
unfoldable pub tally_presence : DeploymentRecord → Counts → Counts
tally_presence r s =
    if is_false r.desired_presence
    then record s { removal_matched = s.removal_matched + 1 }
    else record s { desired_matched = s.desired_matched + 1 }

unfoldable pub tally_status : Value → Counts → Counts
tally_status status s =
    if is status "APPLIED"
    then record s { applied = s.applied + 1 }
    else if is status "APPLIED_OFFLINE"
    then record s { offline = s.offline + 1 }
    else if is status "FAILED"
    then record s { failed = s.failed + 1 }
    else if is status "SUPERSEDED"
    then record s { superseded = s.superseded + 1 }
    else if is status "BASE_PENDING"
    then record s { base_pending = s.base_pending + 1 }
    else if is status "BASE_APPLIED"
    then record s { base_applied = s.base_applied + 1 }
    else if is status "BASE_FAILED"
    then record s { base_failed = s.base_failed + 1 }
    else if is status "REMOVED"
    then record s { removed = s.removed + 1 }
    else record s { pending = s.pending + 1 }

unfoldable pub tally_live : Counts → DeploymentRecord → Counts
tally_live s r = tally_status (collector_record_status r) (tally_presence r s)

unfoldable pub count_collector_records : List DeploymentRecord → Counts
count_collector_records records =
    foldl tally_live (foldl tally_outside (no_counts records) records) (filter covers records)

unfoldable pub inactive_status : Counts → CollectorStatus
inactive_status s =
    if eqb (s.base_applied + s.removed) s.matched
    then (if eqb s.removed 0 then CollectorStatus.base_applied else CollectorStatus.removed)
    else if ltb 0 s.base_failed
    then CollectorStatus.base_failed
    else CollectorStatus.base_pending

-- No live record is to hold the configuration.
unfoldable pub undesired_status : Counts → CollectorStatus
undesired_status s =
    if ltb 0 s.base_failed
    then CollectorStatus.base_failed
    else if ltb 0 s.base_pending
    then CollectorStatus.base_pending
    else CollectorStatus.no_live_targets

unfoldable pub desired_status : Counts → CollectorStatus
desired_status s =
    if eqb s.applied s.desired_matched && eqb (s.base_applied + s.removed) s.removal_matched
    then CollectorStatus.applied
    else if eqb s.offline s.matched
    then CollectorStatus.applied_offline
    else if ltb 0 s.failed && eqb s.applied 0
    then CollectorStatus.failed
    else if ltb 0 (s.applied + s.offline)
    then CollectorStatus.partial
    else if ltb 0 s.pending
    then CollectorStatus.config_pending
    else CollectorStatus.not_in_use

unfoldable pub collector_status : Bool → Counts → CollectorStatus
unfolding inactive_status undesired_status desired_status
collector_status active s =
    if eqb s.matched 0
    then CollectorStatus.no_live_targets
    else if not active
    then inactive_status s
    else if eqb s.desired_matched 0
    then undesired_status s
    else desired_status s

pub record CollectorSummary : Type 0 where
  pub counts : Counts
  pub status : CollectorStatus

unfoldable pub summarize_collector_records : List DeploymentRecord → Bool → CollectorSummary
summarize_collector_records records active =
    let counts = count_collector_records records in
    record { counts = counts; status = collector_status active counts }
