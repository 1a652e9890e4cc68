-- ===== src/Tests.antt =====
-- Concrete records, agents and drafts on which the theorems are applied.
pub mod Policies
pub mod Collectors
pub mod Deployments
pub mod Drafts
pub mod Filters
pub mod Captures
pub mod Fleets
pub mod Managed
pub mod Targets
pub mod Documents
pub mod Accounts
pub mod Providers
pub mod Schemas
use otel_opamp_control_plane.Js.{Num, nan, whole, Value, undefined, null, bool, num, str}
use otel_opamp_control_plane.Coverage.{DeploymentRecord}
use otel_opamp_control_plane.Deployment.{Agent, StoredVersion, Selector}
use otel_opamp_control_plane.Events.{EventPolicy, EventMetric, EventDraft}
use otel_opamp_control_plane.Prelude.{
  ℕ, zero, suc, ◌+◌, ◌-◌, ◌*◌, ◌/◌, ◌%◌, ◌≤◌, ◌<◌, Char, code, String, ◌≡◌, refl, sym, ap, ◌∙◌,
  subst, ◌≢◌, ◌↔◌, ◌⊎◌, inl, inr, Bool, true, false, not, ◌&&◌, ◌||◌, Option, none, some, List, [],
  ◌∷◌, ◌++◌, map, reverse, foldl, arith, ◌==◌, starts_with, eq_iff, eq_refl, ltb, leb, eqb,
  is_empty, empty_lem, if◌then◌else◌, Bool-cases, Option-cases, leb→le, ltb→lt, tests, length,
  get_elem?, any, all, filter, count, length-filter, All, All-filter, All-append, count-le,
  All-of_count_eq, count_congr, All-intro, All-map, All-zip, count-eq-length_iff, count-le-length,
}

-- A record in which the server says nothing.
abbrev blank : DeploymentRecord
blank = record {
  target = str "java-extension";
  service = str "orders";
  agent_uid = str "a1";
  config_id = str "policy-1";
  version = num (whole 2);
  live_status = undefined;
  observed_status = undefined;
  connection_status = undefined;
  desired_presence = undefined;
  current_config_id = undefined;
  current_config_version = undefined;
  current_config_status = undefined;
  current_config_origin = undefined;
  current_effective_config_origin = undefined;
  coverage_state = undefined;
  counts_for_live_coverage = undefined;
  applied_at = undefined;
  last_observed_at = undefined;
}

-- A connected Java extension that has applied the version.
abbrev pub applied_record : DeploymentRecord
applied_record = record blank {
  live_status = str "APPLIED";
  connection_status = str "connected";
  counts_for_live_coverage = bool true;
  applied_at = str "2024-05-01T10:00:00Z";
}

-- One that has removed it.
abbrev pub removed_record : DeploymentRecord
removed_record = record blank {
  live_status = str "REMOVED";
  connection_status = str "ONLINE";
  desired_presence = bool false;
}

-- One that is gone.
abbrev pub historical_record : DeploymentRecord
historical_record = record blank {
  live_status = str "APPLIED_OFFLINE";
  coverage_state = str "HISTORICAL";
  counts_for_live_coverage = bool false;
}

-- A connected collector that has applied the version.
abbrev pub collector_record : DeploymentRecord
collector_record = record blank {
  target = str "collector";
  connection_status = str "CONNECTED";
  current_config_id = str "policy-1";
  current_config_version = num (whole 2);
  current_config_status = str "APPLIED";
}

abbrev pub agent : Agent
agent = record {
  uid = str "a1";
  kind = str "java-extension";
  service = str "orders";
  live_status = str "connected";
  connection_status = undefined;
  remote_config = undefined;
  attributes = ("env", str "prod") ∷ [];
  config_id = undefined;
  version = undefined;
  config_status = str "APPLIED";
  policy_versions = ("policy-1", str "2") ∷ [];
}

abbrev pub stored_version : StoredVersion
stored_version = record {
  config_id = str "policy-1";
  config_id_upper = undefined;
  id = undefined;
  version = num (whole 2);
  target = str "java-extension";
  is_latest = bool true;
  selector = record { instance_uids = []; services = str "orders" ∷ []; attributes = [] };
}

abbrev pub event : String → EventPolicy
event name = record {
  id = str name;
  enabled = bool true;
  direction = undefined;
  scope = undefined;
  event_name = str name;
  conditions = [];
  fields = [];
  derived_fields = [];
  static_attributes = none;
  log_enabled = undefined;
}

abbrev pub metric : String → EventMetric
metric name = record {
  id = str name;
  enabled = bool true;
  event_name = str name;
  standard_attributes = [];
  instrument = str "COUNTER";
  value_field = undefined;
  buckets = none;
}

-- A draft whose event `order` stands twice among its HTTP events.
abbrev pub draft : EventDraft
draft = record {
  body_event_policies = some (event "order" ∷ event "refund" ∷ event "order" ∷ []);
  event_metric_policies = some (metric "order" ∷ metric "refund" ∷ []);
  messaging_event_policies = some (event "payment" ∷ event "refund" ∷ []);
  messaging_metric_policies = some (metric "payment" ∷ []);
}
