-- ===== src/Policy/Record.antt =====
-- `deploymentRecordStatus` of ui/src/policy-management.js: what one deployment record says about its
-- version.
pub mod Laws
use otel_opamp_control_plane.Prelude.{
  String, Bool, true, false, not, ◌&&◌, ◌||◌, List, [], ◌∷◌, ◌==◌, is_empty, if◌then◌else◌,
}
use otel_opamp_control_plane.Js.{
  Value, str, or_else, one_of, has_text, is, is_false, strict_eq, num_eq, to_number,
}
use otel_opamp_control_plane.Coverage.{DeploymentRecord, upper_text, text_or}

abbrev pub connected_statuses : List String
connected_statuses = "CONNECTED" ∷ "ONLINE" ∷ "DEGRADED" ∷ []

-- An applied version, on a target that is connected or not.
abbrev pub applied_by_connection : DeploymentRecord → String
applied_by_connection r =
    if has_text connected_statuses r.connection_status then "APPLIED" else "APPLIED_OFFLINE"

-- The branch of the Java extension. A live status that the backend has calculated is final.
unfoldable pub java_removal_status : (observed current : String) → String
java_removal_status observed current =
    if observed == "REMOVED"
    then "REMOVED"
    else if observed == "FAILED" || current == "FAILED"
    then "FAILED"
    else "REMOVAL_PENDING"

unfoldable pub java_presence_status : DeploymentRecord → (live observed current : String) → String
java_presence_status r live observed current =
    if observed == "FAILED" || current == "FAILED"
    then "FAILED"
    else if observed == "APPLIED"
    then applied_by_connection r
    else text_or observed (text_or live "CONFIG_PENDING")

unfoldable pub java_record_status : DeploymentRecord → String
java_record_status r =
    let live = upper_text r.live_status in
    let observed = upper_text r.observed_status in
    let current = upper_text r.current_config_status in
    if live == "NOT_APPLIED"
    then "NOT_IN_USE"
    else if not (is_empty live)
    then live
    else if is_false r.desired_presence
    then java_removal_status observed current
    else java_presence_status r live observed current

-- `record.CurrentConfigID === record.ConfigID && Number(…) === Number(record.Version)`
abbrev pub reports_version : DeploymentRecord → Bool
reports_version r =
    strict_eq r.current_config_id r.config_id
    && num_eq (to_number r.current_config_version) (to_number r.version)

-- A withdrawn version: whether the target is back on its base configuration.
unfoldable pub withdrawal_status : DeploymentRecord → String
withdrawal_status r =
    if upper_text (or_else r.current_effective_config_origin r.current_config_origin) == "BASE"
    then (if is r.current_config_status "FAILED" then "BASE_FAILED" else "BASE_APPLIED")
    else (if is r.observed_status "FAILED" then "BASE_FAILED" else "BASE_PENDING")

-- A version that is still to be present.
unfoldable pub presence_status : DeploymentRecord → Value
presence_status r =
    if not (reports_version r)
    then str "SUPERSEDED"
    else if is r.current_config_status "FAILED"
    then str "FAILED"
    else if not (is r.current_config_status "APPLIED")
    then or_else r.current_config_status (or_else r.observed_status (str "CONFIG_PENDING"))
    else str (applied_by_connection r)

unfoldable pub base_record_status : DeploymentRecord → Value
base_record_status r =
    let live = upper_text r.live_status in
    if one_of ("BASE_PENDING" ∷ "BASE_APPLIED" ∷ "BASE_FAILED" ∷ []) live
    then str live
    else if is_false r.desired_presence
    then str (withdrawal_status r)
    else presence_status r

unfoldable pub deployment_record_status : DeploymentRecord → Value
deployment_record_status r =
    if is r.target "java-extension" then str (java_record_status r) else base_record_status r
