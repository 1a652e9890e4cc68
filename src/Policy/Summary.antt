-- ===== src/Policy/Summary.antt =====
-- `summarizePolicyDestinations` of ui/src/policy-management.js: one loop over the records of a
-- version counts them, and the counts decide the status of the version. `result` is the record
-- `Summary`; each step of the loop returns the new one.
pub mod Counts
pub mod Partition
pub mod Status
pub mod Order
use otel_opamp_control_plane.Prelude.{
  ℕ, ◌+◌, Bool, true, false, not, ◌&&◌, ◌||◌, List, [], ◌∷◌, ◌==◌, String, eqb, ltb, length, filter,
  if◌then◌else◌,
}
use otel_opamp_control_plane.Js.{Value, is, is_false}
use otel_opamp_control_plane.Coverage.{DeploymentRecord, Coverage, deployment_coverage}
use otel_opamp_control_plane.Policy.Record.{deployment_record_status}

pub data SummaryStatus : Type 0 where
  no_live_targets deactivated removed failed removal_pending : SummaryStatus
  applied applied_pending_replacement partial config_pending not_in_use : SummaryStatus

-- The text of a status on the wire and in the console.
unfoldable pub status_text : SummaryStatus → String
status_text no_live_targets = "NO_LIVE_TARGETS"
status_text deactivated = "DEACTIVATED"
status_text removed = "REMOVED"
status_text failed = "FAILED"
status_text removal_pending = "REMOVAL_PENDING"
status_text applied = "APPLIED"
status_text applied_pending_replacement = "APPLIED_PENDING_REPLACEMENT"
status_text partial = "PARTIAL"
status_text config_pending = "CONFIG_PENDING"
status_text not_in_use = "NOT_IN_USE"

pub record Summary : Type 0 where
  pub status : SummaryStatus
  pub observed : ℕ
  pub matched : ℕ
  pub desired_matched : ℕ
  pub removal_matched : ℕ
  pub historical : ℕ
  pub degraded : ℕ
  pub unknown : ℕ
  pub applied : ℕ
  pub applied_offline : ℕ
  pub applied_stale : ℕ
  pub pending_replacement : ℕ
  pub failed : ℕ
  pub pending : ℕ
  pub not_in_use : ℕ
  pub removed : ℕ
  pub removal_pending : ℕ

abbrev pub counts : DeploymentRecord → Bool
counts r = (deployment_coverage r).counts

abbrev pub start : List DeploymentRecord → Summary
start records = record {
  status = SummaryStatus.no_live_targets;
  observed = length records;
  matched = length (filter counts records);
  desired_matched = 0;
  removal_matched = 0;
  historical = 0;
  degraded = 0;
  unknown = 0;
  applied = 0;
  applied_offline = 0;
  applied_stale = 0;
  pending_replacement = 0;
  failed = 0;
  pending = 0;
  not_in_use = 0;
  removed = 0;
  removal_pending = 0;
}

-- A record outside the live coverage.
unfoldable pub tally_scope : String → Summary → Summary
tally_scope state s =
    if state == "HISTORICAL"
    then record s { historical = s.historical + 1 }
    else if state == "IN_SCOPE_DEGRADED"
    then record s { degraded = s.degraded + 1 }
    else record s { unknown = s.unknown + 1 }

unfoldable pub tally_retained : Value → Summary → Summary
tally_retained status s =
    if is status "APPLIED_OFFLINE"
    then record s { applied_offline = s.applied_offline + 1 }
    else if is status "APPLIED_STALE"
    then record s { applied_stale = s.applied_stale + 1 }
    else s

-- A record of the live coverage.
unfoldable pub tally_presence : DeploymentRecord → Summary → Summary
tally_presence r s =
    if is_false r.desired_presence
    then record s { removal_matched = s.removal_matched + 1 }
    else record s { desired_matched = s.desired_matched + 1 }

unfoldable pub tally_status : Value → Summary → Summary
tally_status status s =
    if is status "APPLIED"
    then record s { applied = s.applied + 1 }
    else if is status "APPLIED_PENDING_REPLACEMENT"
    then record s { pending_replacement = s.pending_replacement + 1 }
    else if is status "FAILED"
    then record s { failed = s.failed + 1 }
    else if is status "SUPERSEDED" || is status "NOT_IN_USE"
    then record s { not_in_use = s.not_in_use + 1 }
    else if is status "REMOVED"
    then record s { removed = s.removed + 1 }
    else if is status "REMOVAL_PENDING"
    then record s { removal_pending = s.removal_pending + 1 }
    else record s { pending = s.pending + 1 }

-- One round of the loop.
unfoldable pub tally : Summary → DeploymentRecord → Summary
tally s r =
    let status = deployment_record_status r in
    let coverage = deployment_coverage r in
    if not coverage.counts
    then tally_retained status (tally_scope coverage.state s)
    else tally_status status (tally_presence r s)

unfoldable pub tally_all : Summary → List DeploymentRecord → Summary
tally_all s [] = s
tally_all s (r ∷ rs) = tally_all (tally s r) rs

-- The status of a version that is withdrawn, and of one that is active.
unfoldable pub withdrawn_status : Summary → SummaryStatus
withdrawn_status s =
    if eqb s.removed s.matched
    then SummaryStatus.removed
    else if ltb 0 s.failed
    then SummaryStatus.failed
    else SummaryStatus.removal_pending

unfoldable pub active_status : Summary → SummaryStatus
active_status s =
    let removals_complete = eqb s.removed s.removal_matched in
    if eqb s.desired_matched 0
    then (if ltb 0 s.failed
        then SummaryStatus.failed
        else if ltb 0 s.removal_pending
        then SummaryStatus.removal_pending
        else SummaryStatus.no_live_targets)
    else if eqb s.applied s.desired_matched && removals_complete
    then SummaryStatus.applied
    else if eqb s.pending_replacement s.matched
    then SummaryStatus.applied_pending_replacement
    else if ltb 0 s.applied
    then SummaryStatus.partial
    else if ltb 0 s.failed
    then SummaryStatus.failed
    else if ltb 0 (s.pending + s.pending_replacement)
    then SummaryStatus.config_pending
    else SummaryStatus.not_in_use

-- The status that stands before the counts are looked at is kept where no branch writes one.
unfoldable pub settle : Bool → Summary → Summary
settle withdrawn s =
    if eqb s.matched 0
    then (if withdrawn then record s { status = SummaryStatus.deactivated } else s)
    else if withdrawn
    then record s { status = withdrawn_status s }
    else record s { status = active_status s }

unfoldable pub summarize_policy_destinations : List DeploymentRecord → Bool → Summary
summarize_policy_destinations records withdrawn =
    settle withdrawn (tally_all (start records) records)
