-- ===== src/Fleet.antt =====
-- ui/src/agent-filtering.js with ui/src/agent-attributes.js: the rows of the list of agents and its
-- filters. `localeCompare` with its options is a parameter; the values of attributes are scalars.
pub mod Laws
use otel_opamp_control_plane.Js.Text.{includes as contains, trim, to_upper, to_lower, join}
use Prim.Native.String
use otel_opamp_control_plane.Prelude.{
  Ordering, ◌^◌, ℕ, zero, suc, ◌+◌, ◌-◌, ◌*◌, ◌/◌, ◌%◌, ◌≤◌, ◌<◌, Char, code, String, ◌≡◌, refl,
  sym, ap, ◌∙◌, subst, ◌≢◌, ◌↔◌, ◌⊎◌, inl, inr, Bool, true, false, not, ◌&&◌, ◌||◌, Option, none,
  some, List, [], ◌∷◌, ◌++◌, map, reverse, foldl, arith, ◌==◌, starts_with, eq_iff, eq_refl, ltb,
  leb, eqb, is_empty, empty_lem, if◌then◌else◌, Bool-cases, Option-cases, leb→le, ltb→lt, tests,
  length, get_elem?, concat_map, any, all, filter, count, length-filter, All, All-filter,
  All-append, count-le, All-of_count_eq, count_congr, All-intro, All-map, All-zip,
  count-eq-length_iff, count-le-length, then_iff, both_iff, not-false, not_below, same_iff,
  not_equal_iff, equal_false_iff, not_or, not_zero,
}
use otel_opamp_control_plane.Js.{
  Value, Num, nan, whole, str, num, undefined, null, to_string, to_number, or_else, truthy, text_of,
  is,
}
use otel_opamp_control_plane.Js.Sort.{or_then, sort}
use otel_opamp_control_plane.Deployment.{Fields}
use otel_opamp_control_plane.Events.{array}
use otel_opamp_control_plane.Version.{Compare}
use otel_opamp_control_plane.Selection.{Selection, single, matches_any_selection}
use otel_opamp_control_plane.Policy.Managed.{distinct_values}
use otel_opamp_control_plane.Collector.Mode.{
  CollectorAgent, Base, Embedded, AgentMode, ReportedVersions, embedded_object,
  collector_agent_mode, collector_reported_versions,
}

pub record FleetAgent : Type 0 where
  pub collector : CollectorAgent
  pub kind : Value
  pub remote_config : Value
  pub live_status : Value
  pub connection_status : Value
  pub transport : Value
  pub policy_versions : Fields

unfoldable pub normalized_status : Value → String → String
normalized_status value default = to_upper (trim (to_string (or_else value (str default))))

-- `formatReportedAttributeValue(value)` of a scalar.
abbrev pub format_value : Value → String
format_value v = to_string v

unfoldable pub searchable_attributes : Fields → List Value
searchable_attributes attributes =
    concat_map
      (λ pair.
        let formatted = format_value pair.1 in
        str pair.0 ∷ str formatted ∷ str (String.◌++◌ pair.0 (String.◌++◌ "=" formatted)) ∷ [])
      attributes

unfoldable pub fleet_agent_availability : FleetAgent → String
fleet_agent_availability agent =
    normalized_status (or_else agent.live_status agent.connection_status) "UNKNOWN"

abbrev pub is_collector : FleetAgent → Bool
is_collector agent = is agent.kind "collector"

unfoldable pub fleet_agent_effective_status : FleetAgent → List Base → String
fleet_agent_effective_status agent bases =
    if is_collector agent && not (truthy agent.remote_config)
    then "REPORT_ONLY"
    else if is_collector agent
    then normalized_status (str (collector_agent_mode agent.collector bases).live_status)
        "NOT_REPORTED"
    else normalized_status agent.collector.config_status "NOT_REPORTED"

pub record PolicyEntry : Type 0 where
  pub id : String
  pub version : Num

-- `Number.isSafeInteger(version) && version > 0`
abbrev pub is_safe : Num → Bool
is_safe nan = false
is_safe (whole n) = ltb 0 n && ltb n (2 ^ 53)

abbrev pub entry_of : String × Value → PolicyEntry
entry_of pair = record { id = trim pair.0; version = to_number pair.1 }

abbrev pub is_entry : PolicyEntry → Bool
is_entry entry = not (is_empty entry.id) && is_safe entry.version

module _ (locale_compare : Compare) where
  abbrev pub compare_entries : PolicyEntry → PolicyEntry → Ordering
  compare_entries left right = locale_compare left.id right.id

  unfoldable pub java_policy_set_entries : FleetAgent → List PolicyEntry
  java_policy_set_entries agent =
      let entries = sort compare_entries (filter is_entry (map entry_of agent.policy_versions)) in
      if is agent.kind "java-extension" then entries else []

  pub record Row : Type 0 where
    pub agent : FleetAgent
    pub collector_mode : Option AgentMode
    pub reported_versions : ReportedVersions
    pub java_policies : List PolicyEntry
    pub availability : String
    pub effective_status : String
    pub search_text : String

  abbrev pub label_values : Option AgentMode → List Value
  label_values none = []
  label_values (some mode) = str mode.effective_label ∷ str mode.fallback_label ∷ []

  -- `collectorMode?.base || agent.BaseConfig || {}`
  abbrev pub shown_base : Option AgentMode → Embedded → Base
  shown_base none embedded = embedded_object embedded
  shown_base (some mode) embedded = elim mode.base [
    | none ↦ embedded_object embedded
    | some base ↦ base
  ]

  abbrev pub no_versions : ReportedVersions
  no_versions = record { collector = ""; supervisor = "" }

  -- A value that the search text leaves out.
  abbrev pub is_absent : Value → Bool
  is_absent undefined = true
  is_absent null = true
  is_absent (str s) = is_empty s
  is_absent _ = false

  abbrev pub policy_texts : PolicyEntry → List Value
  policy_texts entry =
      let version = to_string (num entry.version) in
      str entry.id ∷ str version ∷ str (String.◌++◌ entry.id (String.◌++◌ " v" version)) ∷ []

  unfoldable pub project_fleet_agent : List Base → FleetAgent → Row
  project_fleet_agent bases agent =
      let own = agent.collector in
      let mode : Option AgentMode =
        (if is_collector agent then some (collector_agent_mode own bases) else none) in
      let versions : ReportedVersions =
        (if is_collector agent then collector_reported_versions own else no_versions) in
      let availability = fleet_agent_availability agent in
      let effective_status = fleet_agent_effective_status agent bases in
      let policies = java_policy_set_entries agent in
      let base = shown_base mode own.base_config in
      let searched : List Value =
        (own.service
          ∷ own.uid
          ∷ agent.kind
          ∷ agent.transport
          ∷ own.config_id
          ∷ own.version
          ∷ str availability
          ∷ str effective_status
          ∷ label_values mode)
        ++ ((str versions.collector
              ∷ str versions.supervisor
              ∷ base.id_upper
              ∷ base.source_upper
              ∷ base.revision_upper
              ∷ base.behavior_upper
              ∷ concat_map policy_texts policies)
            ++ searchable_attributes (array own.attributes_upper)) in
      record {
        agent = agent;
        collector_mode = mode;
        reported_versions = versions;
        java_policies = policies;
        availability = availability;
        effective_status = effective_status;
        search_text =
            to_lower (join " " (map to_string (filter (λ v. not (is_absent v)) searched)));
      }

  abbrev pub compare_rows : Row → Row → Ordering
  compare_rows left right =
      or_then
        (locale_compare (text_of left.agent.collector.service)
          (text_of right.agent.collector.service))
        (or_then (locale_compare (text_of left.agent.kind) (text_of right.agent.kind))
          (locale_compare (text_of left.agent.collector.uid) (text_of right.agent.collector.uid)))

  unfoldable pub project_fleet_agents : List FleetAgent → List Base → List Row
  project_fleet_agents agents bases = sort compare_rows (map (project_fleet_agent bases) agents)

  pub record FleetFilters : Type 0 where
    pub query : Value
    pub services : Selection
    pub kinds : Selection
    pub transports : Selection
    pub availability : Selection
    pub effective_statuses : Selection

  unfoldable pub row_passes : FleetFilters → Row → Bool
  row_passes filters row =
      let query = to_lower (trim (text_of filters.query)) in
      (is_empty query || contains row.search_text query)
      && (matches_any_selection filters.services (single row.agent.collector.service)
          && (matches_any_selection filters.kinds (single row.agent.kind)
              && (matches_any_selection filters.transports (single row.agent.transport)
                  && (matches_any_selection filters.availability (single (str row.availability))
                      && matches_any_selection filters.effective_statuses
                          (single (str row.effective_status))))))

  unfoldable pub filter_fleet_agent_rows : List Row → FleetFilters → List Row
  filter_fleet_agent_rows rows filters = filter (row_passes filters) rows

  unfoldable pub fleet_filter_values : List Row → (Row → Value) → List Value
  fleet_filter_values rows selector =
      sort (λ left right. locale_compare (to_string left) (to_string right))
        (distinct_values [] (map selector rows))
