-- ===== src/Tests/Deployments.antt =====
-- The theorems on deployments and their coverage, applied to a concrete version and record.
use otel_opamp_control_plane.Js.Text.{to_upper}
use otel_opamp_control_plane.Js.{to_string}
use otel_opamp_control_plane.Coverage.{upper_text, deployment_coverage}
use otel_opamp_control_plane.Tests.{removed_record, agent, stored_version}
use otel_opamp_control_plane.Deployment.{
  DeploymentStatus, destinations, deployment_status_for_version,
}
use otel_opamp_control_plane.Deployment.Laws.{holds, rejects, deployment_status_iff}
use otel_opamp_control_plane.Prelude.{◌<◌, ◌≡◌, refl, ◌↔◌, true, false, [], ◌∷◌, length, count, All}

deployment_status_iff_example :
    let rest = destinations stored_version (agent ∷ []) in
    let status = (deployment_status_for_version stored_version (agent ∷ [])).status in
    ((status ≡ DeploymentStatus.no_live_targets) ↔ (length rest ≡ 0))
    × ((status ≡ DeploymentStatus.applied)
        ↔ ((0 < length rest) × All (λ a. holds stored_version a ≡ true) rest))
    × ((status ≡ DeploymentStatus.failed)
        ↔ ((0 < count (rejects stored_version) rest) × (count (holds stored_version) rest ≡ 0)))
    × ((status ≡ DeploymentStatus.partial) ↔ (
        (0 < count (holds stored_version) rest)
        × (count (holds stored_version) rest < length rest)))
deployment_status_iff_example = deployment_status_iff stored_version (agent ∷ [])

removed_record_legacy : (deployment_coverage removed_record).explicit ≡ false
unfolding deployment_coverage upper_text to_upper to_string
removed_record_legacy = refl
