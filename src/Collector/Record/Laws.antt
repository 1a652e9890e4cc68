-- ===== src/Collector/Record/Laws.antt =====
-- The collector view and the policy view of a deployment record agree.
use otel_opamp_control_plane.Prelude.{
  String, ◌≡◌, refl, inl, inr, Bool, true, false, ◌==◌, eq_iff, if◌then◌else◌, Bool-cases,
}
use otel_opamp_control_plane.Js.{str, is}
use otel_opamp_control_plane.Coverage.{DeploymentRecord, upper_text}
use otel_opamp_control_plane.Policy.Record.{
  deployment_record_status, base_record_status, withdrawal_status, presence_status,
}
use otel_opamp_control_plane.Collector.Record.{
  collector_record_status, absence_status, current_status,
}

absence-withdrawal : (r : DeploymentRecord) → absence_status r ≡ withdrawal_status r
unfolding absence_status withdrawal_status
absence-withdrawal r = refl

-- A text picked before or after it is made a value.
str-if : (b : Bool) (s t : String) → str (if b then s else t) ≡ (if b then str s else str t)
str-if true s t = refl
str-if false s t = refl

current-presence : (r : DeploymentRecord) → current_status r ≡ presence_status r
unfolding current_status presence_status
current-presence r = simp str-if

-- For a target that is no Java extension both views of a record give the same status, but for a live
-- status REMOVED, which only the collector view passes on.
pub collector-deployment_record_status :
    (r : DeploymentRecord)
    → is r.target "java-extension" ≡ false
    → collector_record_status r ≡ (
        if upper_text r.live_status == "REMOVED" then str "REMOVED" else deployment_record_status r)
unfolding collector_record_status deployment_record_status base_record_status
collector-deployment_record_status r other =
    elim (Bool-cases (upper_text r.live_status == "REMOVED")) [
      | inl removed ↦ rw ((eq_iff _ _).0 removed)
      | inr live ↦ rw (other, live, absence-withdrawal, current-presence) refl
    ]
