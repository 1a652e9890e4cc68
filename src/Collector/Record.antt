-- ===== src/Collector/Record.antt =====
-- The status that the collector view derives from a deployment record: `collectorRecordStatus`
-- (ui/src/collector-management.js).
pub mod Laws
use otel_opamp_control_plane.Prelude.{
  ℕ, zero, suc, ◌+◌, ◌-◌, ◌*◌, ◌/◌, ◌%◌, ◌≤◌, ◌<◌, Char, code, String, ◌≡◌, refl, sym, ap, ◌∙◌,
  subst, ◌≢◌, ◌↔◌, ◌⊎◌, inl, inr, Bool, true, false, not, ◌&&◌, ◌||◌, Option, none, some, List, [],
  ◌∷◌, ◌++◌, map, reverse, arith, ◌==◌, starts_with, eq_iff, eq_refl, ltb, leb, eqb, is_empty,
  empty_lem, if◌then◌else◌, Bool-cases, Option-cases, leb→le, ltb→lt, tests, length, get_elem?, any,
  all, filter, count, length-filter, All, All-filter, All-append, count-le, All-of_count_eq,
  count_congr, All-intro, All-map, All-zip,
}
use otel_opamp_control_plane.Js.{
  Value, str, or_else, one_of, has_text, is, is_false, strict_eq, num_eq, to_number,
}
use otel_opamp_control_plane.Coverage.{DeploymentRecord, upper_text}

abbrev pub connected_statuses : List String
connected_statuses = "CONNECTED" ∷ "ONLINE" ∷ "DEGRADED" ∷ []

-- A configuration that is to be absent.
unfoldable pub absence_status : DeploymentRecord → String
absence_status r =
    if upper_text (or_else r.current_effective_config_origin r.current_config_origin) == "BASE"
    then (if is r.current_config_status "FAILED" then "BASE_FAILED" else "BASE_APPLIED")
    else (if is r.observed_status "FAILED" then "BASE_FAILED" else "BASE_PENDING")

-- A configuration that is to be present.
unfoldable pub current_status : DeploymentRecord → Value
current_status r =
    let current =
      strict_eq r.current_config_id r.config_id
      && num_eq (to_number r.current_config_version) (to_number r.version) in
    if not current
    then str "SUPERSEDED"
    else if is r.current_config_status "FAILED"
    then str "FAILED"
    else if not (is r.current_config_status "APPLIED")
    then or_else r.current_config_status (or_else r.observed_status (str "CONFIG_PENDING"))
    else if has_text connected_statuses r.connection_status
    then str "APPLIED"
    else str "APPLIED_OFFLINE"

unfoldable pub collector_record_status : DeploymentRecord → Value
collector_record_status r =
    let live = upper_text r.live_status in
    if one_of ("BASE_PENDING" ∷ "BASE_APPLIED" ∷ "BASE_FAILED" ∷ "REMOVED" ∷ []) live
    then str live
    else if is_false r.desired_presence
    then str (absence_status r)
    else current_status r
