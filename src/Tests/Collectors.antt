-- ===== src/Tests/Collectors.antt =====
-- The theorems on collectors, applied to concrete records.
use otel_opamp_control_plane.Js.{to_number, to_string, str}
use otel_opamp_control_plane.Js.Text.{to_upper}
use otel_opamp_control_plane.Collector.Record.{current_status, collector_record_status}
use otel_opamp_control_plane.Coverage.{DeploymentRecord, upper_text, deployment_coverage}
use otel_opamp_control_plane.Tests.{collector_record, historical_record}
use otel_opamp_control_plane.Collector.Summary.{
  CollectorStatus, covers, summarize_collector_records,
}
use otel_opamp_control_plane.Collector.Summary.Tally.{withdrawn}
use otel_opamp_control_plane.Collector.Summary.Partition.{collector_partition}
use otel_opamp_control_plane.Collector.Summary.Verdict.{
  confirmed_gone, Consistent, Reached, collector_gone_iff, collector_applied_iff,
}
use otel_opamp_control_plane.Policy.Record.{deployment_record_status}
use otel_opamp_control_plane.Collector.Record.Laws.{collector-deployment_record_status}
use otel_opamp_control_plane.Prelude.{
  ◌+◌, ◌<◌, ◌≡◌, refl, ◌↔◌, ◌⊎◌, true, false, not, List, [], ◌∷◌, ◌==◌, if◌then◌else◌, filter,
  count, All,
}

abbrev records : List DeploymentRecord
records = collector_record ∷ historical_record ∷ []

records-Consistent : All Consistent (filter covers records)
unfolding deployment_coverage upper_text to_upper to_string collector_record_status current_status
    to_number
records-Consistent = ((λ h. refl, λ h. h), tt)

collector_applied_iff_example :
    ((summarize_collector_records records true).status ≡ CollectorStatus.applied) ↔ (
      (0 < count (λ r. not (withdrawn r)) (filter covers records))
      × All Reached (filter covers records))
collector_applied_iff_example = collector_applied_iff records records-Consistent

collector_gone_iff_example :
    (((summarize_collector_records records false).status ≡ CollectorStatus.removed)
      ⊎ ((summarize_collector_records records false).status ≡ CollectorStatus.base_applied))
    ↔ ((0 < count covers records) × All (λ r. confirmed_gone r ≡ true) (filter covers records))
collector_gone_iff_example = collector_gone_iff records

collector_partition_example :
    let s = (summarize_collector_records records true).counts in
    (s.applied + s.offline + s.failed + s.superseded + s.base_pending + s.base_applied
        + s.base_failed + s.removed + s.pending
      ≡ s.matched)
    × (s.desired_matched + s.removal_matched ≡ s.matched)
    × (s.matched ≡ count covers records)
collector_partition_example = collector_partition records true

collector-deployment_record_status_example : collector_record_status collector_record ≡ (
    if upper_text collector_record.live_status == "REMOVED"
    then str "REMOVED"
    else deployment_record_status collector_record)
collector-deployment_record_status_example =
    collector-deployment_record_status collector_record refl
