-- ===== src/Coverage.antt =====
-- ui/src/deployment-coverage.js: whether a deployment record counts for the live coverage of its
-- version, and whether its delivery is confirmed. A record's fields are scalars of the wire format;
-- a field that the server leaves out is `undefined`.
pub mod Laws
use otel_opamp_control_plane.Prelude.{
  String, Bool, true, false, ◌&&◌, List, [], ◌∷◌, ◌==◌, is_empty, if◌then◌else◌,
}
use otel_opamp_control_plane.Js.{Value, null, bool, str, truthy, or_else, to_string, one_of}
use otel_opamp_control_plane.Js.Text.{to_upper}

pub record DeploymentRecord : Type 0 where
  pub target : Value
  pub service : Value
  pub agent_uid : Value
  pub config_id : Value
  pub version : Value
  pub live_status : Value
  pub observed_status : Value
  pub connection_status : Value
  pub desired_presence : Value
  pub current_config_id : Value
  pub current_config_version : Value
  pub current_config_status : Value
  pub current_config_origin : Value
  pub current_effective_config_origin : Value
  pub coverage_state : Value
  pub counts_for_live_coverage : Value
  pub applied_at : Value
  pub last_observed_at : Value

-- `String(v || "").toUpperCase()`
unfoldable pub upper_text : Value → String
upper_text v = to_upper (to_string (or_else v (str "")))

-- `s || t` on texts
abbrev pub text_or : String → String → String
text_or s t = if is_empty s then t else s

pub record Coverage : Type 0 where
  pub counts : Bool
  pub state : String
  pub explicit : Bool

abbrev pub live_legacy_statuses : List String
live_legacy_statuses = "CONNECTED" ∷ "ONLINE" ∷ []

legacy_coverage : String → Coverage
legacy_coverage connection_status =
    if one_of live_legacy_statuses connection_status
    then record { counts = true; state = "IN_SCOPE"; explicit = false }
    else if connection_status == "DEGRADED"
    then record { counts = false; state = "IN_SCOPE_DEGRADED"; explicit = false }
    else record { counts = false; state = "UNKNOWN"; explicit = false }

explicit_coverage : Bool → String → Coverage
explicit_coverage counts explicit_state = record {
  counts = counts;
  state = text_or explicit_state (if counts then "IN_SCOPE" else "UNKNOWN");
  explicit = true;
}

unfoldable pub deployment_coverage : DeploymentRecord → Coverage
unfolding legacy_coverage explicit_coverage
deployment_coverage r = elim r.counts_for_live_coverage [
  | bool counts ↦ explicit_coverage counts (upper_text r.coverage_state)
  | _ ↦ legacy_coverage (upper_text r.connection_status)
]

unfoldable pub coverage_status_for_display : DeploymentRecord → String
coverage_status_for_display r =
    let state = (deployment_coverage r).state in
    if state == "HISTORICAL"
    then "HISTORICAL"
    else if state == "IN_SCOPE_DEGRADED"
    then "IN_SCOPE_DEGRADED"
    else if state == "UNKNOWN"
    then "UNKNOWN"
    else ""

pub data Source : Type 0 where
  acknowledgement live_report no_source : Source

pub record Confirmation : Type 0 where
  pub confirmed : Bool
  pub at : Value
  pub source : Source

abbrev pub confirmed_deployment_statuses : List String
confirmed_deployment_statuses = "APPLIED" ∷ "REMOVED" ∷ "BASE_APPLIED" ∷ []

unfoldable pub deployment_confirmation : DeploymentRecord → Value → Confirmation
deployment_confirmation r status =
    if truthy r.applied_at
    then record { confirmed = true; at = r.applied_at; source = acknowledgement }
    else if one_of confirmed_deployment_statuses (upper_text (or_else status r.live_status))
        && truthy r.last_observed_at
    then record { confirmed = true; at = r.last_observed_at; source = live_report }
    else record { confirmed = false; at = null; source = no_source }
