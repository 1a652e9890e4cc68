-- ===== src/Tests/Policies.antt =====
-- The theorems on policies, applied to concrete records.
use otel_opamp_control_plane.Policy.Record.{
  java_record_status, java_presence_status, java_removal_status, deployment_record_status,
}
use otel_opamp_control_plane.Js.Text.{to_upper}
use otel_opamp_control_plane.Js.{to_string, is}
use otel_opamp_control_plane.Coverage.{deployment_coverage, DeploymentRecord, upper_text}
use otel_opamp_control_plane.Tests.{applied_record, removed_record, historical_record}
use otel_opamp_control_plane.Policy.Summary.{
  SummaryStatus, counts, start, settle, summarize_policy_destinations,
}
use otel_opamp_control_plane.Policy.Summary.Status.{
  desired, Reached, Reports, Consistent, summary_applied_iff, summary_removed_iff,
}
use otel_opamp_control_plane.Policy.Summary.Counts.{counted, summarize-counted}
use otel_opamp_control_plane.Policy.Summary.Partition.{summary_partition}
use otel_opamp_control_plane.Policy.Record.Laws.{JavaApplied, BaseApplied, record_applied_iff}
use otel_opamp_control_plane.Prelude.{
  ◌+◌, ◌<◌, ◌≡◌, refl, sym, ◌↔◌, ◌⊎◌, true, false, List, [], ◌∷◌, ◌==◌, length, count, All,
}

abbrev records : List DeploymentRecord
records = applied_record ∷ removed_record ∷ historical_record ∷ []

abbrev reordered : List DeploymentRecord
reordered = removed_record ∷ applied_record ∷ historical_record ∷ []

records-Consistent : All Consistent records
unfolding deployment_record_status java_record_status java_presence_status java_removal_status
    upper_text to_upper to_string deployment_coverage
records-Consistent =
    (λ live. (λ h. refl, λ h. h), (λ live. (λ h. sym h, λ h. refl), (λ live. cc, tt)))

summary_applied_iff_example :
    ((summarize_policy_destinations records false).status ≡ SummaryStatus.applied)
    ↔ ((0 < count desired records) × All Reached records)
summary_applied_iff_example = summary_applied_iff records records-Consistent

summary_removed_iff_example :
    ((summarize_policy_destinations records true).status ≡ SummaryStatus.removed)
    ↔ ((0 < count counts records) × All (Reports "REMOVED") records)
summary_removed_iff_example = summary_removed_iff records

summarize-counted_example :
    summarize_policy_destinations records false ≡ settle false (counted records (start records))
summarize-counted_example = summarize-counted records false

summary_partition_example :
    let s = summarize_policy_destinations records false in
    (s.applied + s.pending_replacement + s.failed + s.not_in_use + s.removed + s.removal_pending
        + s.pending
      ≡ s.matched)
    × (s.desired_matched + s.removal_matched ≡ s.matched)
    × (s.matched + s.historical + s.degraded + s.unknown ≡ s.observed)
    × (s.observed ≡ length records)
summary_partition_example = summary_partition records false

record_applied_iff_example : (is (deployment_record_status applied_record) "APPLIED" ≡ true) ↔ (
    ((is applied_record.target "java-extension" ≡ true)
      × (((upper_text applied_record.live_status == "APPLIED") ≡ true)
          ⊎ JavaApplied applied_record))
    ⊎ ((is applied_record.target "java-extension" ≡ false) × BaseApplied applied_record))
record_applied_iff_example = record_applied_iff applied_record
