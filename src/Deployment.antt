-- ===== src/Deployment.antt =====
-- ui/src/deployment-status.js: the status of one stored version, read off the agents that are there.
pub mod Laws
use otel_opamp_control_plane.Js.{
  to_string, Num, nan, Value, undefined, str, truthy, or_else, to_number, num_eq, is, strict_eq,
  one_of,
}
use otel_opamp_control_plane.Prelude.{
  ℕ, zero, suc, ◌+◌, ◌-◌, ◌*◌, ◌/◌, ◌%◌, ◌≤◌, ◌<◌, Char, code, String, ◌≡◌, refl, sym, ap, ◌∙◌,
  subst, ◌≢◌, ◌↔◌, ◌⊎◌, inl, inr, Bool, true, false, not, ◌&&◌, ◌||◌, Option, none, some, List, [],
  ◌∷◌, ◌++◌, map, reverse, foldl, arith, ◌==◌, starts_with, eq_iff, eq_refl, ltb, leb, eqb,
  is_empty, empty_lem, if◌then◌else◌, Bool-cases, Option-cases, leb→le, ltb→lt, tests, length,
  get_elem?, any, all, filter, count, length-filter, All, All-filter, All-append, count-le,
  All-of_count_eq, count_congr, All-intro, All-map, All-zip, count-eq-length_iff,
}
use otel_opamp_control_plane.Coverage.{upper_text}

-- A dictionary of the wire format: a key that is not there reads as `undefined`.
abbrev pub Fields : Type 0
Fields = List (String × Value)

unfoldable pub field : Fields → String → Value
field [] key = undefined
field ((k, v) ∷ fields) key = if k == key then v else field fields key

pub record Agent : Type 0 where
  pub uid : Value
  pub kind : Value
  pub service : Value
  pub live_status : Value
  pub connection_status : Value
  pub remote_config : Value
  pub attributes : Fields
  pub config_id : Value
  pub version : Value
  pub config_status : Value
  pub policy_versions : Fields

pub record Selector : Type 0 where
  pub instance_uids : List Value
  pub services : List Value
  pub attributes : Fields

pub record StoredVersion : Type 0 where
  pub config_id : Value
  pub config_id_upper : Value
  pub id : Value
  pub version : Value
  pub target : Value
  pub is_latest : Value
  pub selector : Selector

abbrev pub legacy_live_statuses : List String
legacy_live_statuses = "CONNECTED" ∷ "ONLINE" ∷ []

unfoldable pub agent_counts_for_live_coverage : Agent → Bool
agent_counts_for_live_coverage a =
    let live_status = upper_text a.live_status in
    if not (is_empty live_status)
    then live_status == "CONNECTED"
    else one_of legacy_live_statuses (upper_text a.connection_status)

-- `values.includes(v)`, which takes `NaN` to equal itself.
abbrev pub same_value : Value → Value → Bool
same_value (Value.num nan) (Value.num nan) = true
same_value a b = strict_eq a b

abbrev pub includes : List Value → Value → Bool
includes vs v = any (λ w. same_value w v) vs

unfoldable pub matches_selector : Agent → Selector → Bool
matches_selector a s =
    (eqb (length s.instance_uids) 0 || includes s.instance_uids a.uid)
    && ((eqb (length s.services) 0 || includes s.services a.service)
        && all (λ (key, value). strict_eq (field a.attributes key) value) s.attributes)

unfoldable pub is_compatible : Agent → StoredVersion → Bool
is_compatible a v =
    strict_eq a.kind v.target
    && ((not (is v.target "collector") || truthy a.remote_config) && matches_selector a v.selector)

unfoldable pub references_version : Agent → StoredVersion → Bool
references_version a v =
    let config_id = or_else v.config_id (or_else v.config_id_upper v.id) in
    if is v.target "java-extension"
    then num_eq (to_number (field a.policy_versions (to_string config_id))) (to_number v.version)
    else strict_eq a.config_id config_id && num_eq (to_number a.version) (to_number v.version)

pub data DeploymentStatus : Type 0 where
  no_live_targets applied failed partial config_pending not_in_use : DeploymentStatus

pub record Deployment : Type 0 where
  pub status : DeploymentStatus
  pub observed : ℕ
  pub matched : ℕ
  pub applied : ℕ
  pub failed : ℕ
  pub pending : ℕ
  pub not_in_use : ℕ

-- One round of the loop over the destinations.
unfoldable pub tally : StoredVersion → Deployment → Agent → Deployment
tally v d a =
    if not (references_version a v)
    then record d { not_in_use = d.not_in_use + 1 }
    else if is a.config_status "APPLIED"
    then record d { applied = d.applied + 1 }
    else if is a.config_status "FAILED"
    then record d { failed = d.failed + 1 }
    else record d { pending = d.pending + 1 }

unfoldable pub destinations : StoredVersion → List Agent → List Agent
destinations v agents =
    filter agent_counts_for_live_coverage (filter (λ a. is_compatible a v) agents)

abbrev pub start : StoredVersion → List Agent → Deployment
start v agents = record {
  status = DeploymentStatus.no_live_targets;
  observed = length (filter (λ a. is_compatible a v) agents);
  matched = length (destinations v agents);
  applied = 0;
  failed = 0;
  pending = 0;
  not_in_use = 0;
}

unfoldable pub settle : StoredVersion → Deployment → Deployment
settle v d =
    if eqb d.matched 0
    then d
    else if eqb d.applied d.matched
    then record d { status = DeploymentStatus.applied }
    else if ltb 0 d.failed && eqb d.applied 0
    then record d { status = DeploymentStatus.failed }
    else if ltb 0 d.applied
    then record d { status = DeploymentStatus.partial }
    else if ltb 0 d.pending || (truthy v.is_latest && ltb 0 d.not_in_use)
    then record d { status = DeploymentStatus.config_pending }
    else record d { status = DeploymentStatus.not_in_use }

unfoldable pub deployment_status_for_version : StoredVersion → List Agent → Deployment
deployment_status_for_version v agents =
    settle v (foldl (tally v) (start v agents) (destinations v agents))
