-- ===== src/Collector/Mode.antt =====
-- ui/src/collector-management.js: which configuration a collector runs, its own base or a managed one.
-- A base is an object whose fields are spelled in two ways; a scalar that is missing is `undefined`.
pub mod Laws
use Prim.Native.String
use otel_opamp_control_plane.Js.{
  Value, Num, nan, whole, str, bool, undefined, to_string, to_number, nullish, or_else, truthy,
  strict_eq, text_of, is_false,
}
use otel_opamp_control_plane.Js.Text.{trim, to_upper, to_lower}
use otel_opamp_control_plane.Deployment.{Fields, field, includes}
use otel_opamp_control_plane.Events.{array}
use otel_opamp_control_plane.Prelude.{
  ℕ, zero, suc, ◌+◌, ◌-◌, ◌*◌, ◌/◌, ◌%◌, ◌≤◌, ◌<◌, Char, code, String, ◌≡◌, refl, sym, ap, ◌∙◌,
  subst, ◌≢◌, ◌↔◌, ◌⊎◌, inl, inr, Bool, true, false, not, ◌&&◌, ◌||◌, Option, none, some, List, [],
  ◌∷◌, ◌++◌, map, reverse, foldl, arith, ◌==◌, starts_with, eq_iff, eq_refl, ltb, leb, eqb,
  is_empty, empty_lem, if◌then◌else◌, Bool-cases, Option-cases, leb→le, ltb→lt, tests, length,
  get_elem?, concat_map, any, all, filter, count, length-filter, All, All-filter, All-append,
  count-le, All-of_count_eq, count_congr, All-intro, All-map, All-zip, count-eq-length_iff,
  count-le-length, then_iff, both_iff, not-false, not_below, same_iff, not_equal_iff,
  equal_false_iff, not_or, not_zero,
}

-- A field that holds an array: it may be missing, and the server writes an empty one as `null`.
pub data ListField : Type 0 where
  missing no_list : ListField
  items : List Value → ListField

pub record Base : Type 0 where
  pub id_upper : Value
  pub id : Value
  pub source_upper : Value
  pub source : Value
  pub revision_upper : Value
  pub revision : Value
  pub immutable_upper : Value
  pub immutable : Value
  pub behavior_upper : Value
  pub behavior : Value
  pub services_upper : ListField
  pub services : ListField
  pub agent_uids_upper : ListField
  pub agent_uids : ListField
  pub agents : ListField

-- The base that an agent reports: none, its id, or an object.
pub data Embedded : Type 0 where
  no_base : Embedded
  base_id : String → Embedded
  base_object : Base → Embedded

pub record CollectorAgent : Type 0 where
  pub uid : Value
  pub service : Value
  pub base_config : Embedded
  pub effective_config_origin : Value
  pub config_status : Value
  pub config_id : Value
  pub version : Value
  pub attributes_upper : Option Fields
  pub attributes : Option Fields

-- The array, or `[]`.
abbrev pub list_or_empty : ListField → List Value
list_or_empty (items xs) = xs
list_or_empty _ = []

-- `a || b`
abbrev pub either_list : ListField → ListField → ListField
either_list (items xs) other = items xs
either_list _ other = other

-- The result keeps the other fields of the base, so it is a base again.
unfoldable pub normalize_collector_base : Base → Base
normalize_collector_base base = record base {
  id_upper = str (to_string (or_else base.id_upper (or_else base.id (str ""))));
  source_upper =
      str (to_string (or_else base.source_upper (or_else base.source (str "ConfigMap"))));
  revision_upper = str (to_string (or_else base.revision_upper (or_else base.revision (str ""))));
  immutable_upper = nullish base.immutable_upper (nullish base.immutable (bool true));
  behavior_upper =
      str (to_upper (to_string (or_else base.behavior_upper (or_else base.behavior (str "NOP")))));
  services_upper = items (list_or_empty (either_list base.services_upper base.services));
  agent_uids_upper =
      items (
        list_or_empty
          (either_list base.agent_uids_upper (either_list base.agent_uids base.agents)));
}

-- `{ ...a, ...b }`: a field of `b` that is there wins.
abbrev pub over : Value → Value → Value
over a undefined = a
over a b = b

abbrev pub over_list : ListField → ListField → ListField
over_list a missing = a
over_list a b = b

unfoldable pub overlay : Base → Base → Base
overlay a b = record {
  id_upper = over a.id_upper b.id_upper;
  id = over a.id b.id;
  source_upper = over a.source_upper b.source_upper;
  source = over a.source b.source;
  revision_upper = over a.revision_upper b.revision_upper;
  revision = over a.revision b.revision;
  immutable_upper = over a.immutable_upper b.immutable_upper;
  immutable = over a.immutable b.immutable;
  behavior_upper = over a.behavior_upper b.behavior_upper;
  behavior = over a.behavior b.behavior;
  services_upper = over_list a.services_upper b.services_upper;
  services = over_list a.services b.services;
  agent_uids_upper = over_list a.agent_uids_upper b.agent_uids_upper;
  agent_uids = over_list a.agent_uids b.agent_uids;
  agents = over_list a.agents b.agents;
}

-- `{}`
abbrev pub empty_base : Base
empty_base = record {
  id_upper = undefined;
  id = undefined;
  source_upper = undefined;
  source = undefined;
  revision_upper = undefined;
  revision = undefined;
  immutable_upper = undefined;
  immutable = undefined;
  behavior_upper = undefined;
  behavior = undefined;
  services_upper = missing;
  services = missing;
  agent_uids_upper = missing;
  agent_uids = missing;
  agents = missing;
}

abbrev pub embedded_id : Embedded → Value
embedded_id no_base = undefined
embedded_id (base_id id) = str id
embedded_id (base_object base) = or_else base.id_upper base.id

abbrev pub embedded_object : Embedded → Base
embedded_object (base_object base) = base
embedded_object _ = empty_base

-- `bases.find(test)`
abbrev pub find {ℓ} : {A : Type ℓ} → (A → Bool) → List A → Option A
find test [] = none
find test (x ∷ xs) = let rest = find test xs in if test x then some x else rest

abbrev pub base_or_empty : Option Base → Base
base_or_empty none = empty_base
base_or_empty (some base) = base

unfoldable pub collector_base_for_agent : CollectorAgent → List Base → Option Base
collector_base_for_agent agent bases =
    let id = embedded_id agent.base_config in
    let normalized = map normalize_collector_base bases in
    let registered = base_or_empty (find (λ base. strict_eq base.id_upper id) normalized) in
    let reported =
      normalize_collector_base
        (record (overlay registered (embedded_object agent.base_config)) { id_upper = id }) in
    let assigned =
      find
        (λ base.
          includes (list_or_empty base.agent_uids_upper) agent.uid
          || includes (list_or_empty base.services_upper) agent.service)
        normalized in
    if truthy id then some reported else assigned

pub record AgentMode : Type 0 where
  pub base : Option Base
  pub base_active : Bool
  pub managed_active : Bool
  pub live_status : String
  pub effective_label : String
  pub fallback_label : String

abbrev pub is_positive : Num → Bool
is_positive nan = false
is_positive (whole n) = ltb 0 n

abbrev pub base_live_status : String → String
base_live_status status =
    if status == "FAILED" || status == "BASE_FAILED"
    then "BASE_FAILED"
    else if status == "CONFIG_PENDING" || status == "BASE_PENDING"
    then "BASE_PENDING"
    else "BASE_APPLIED"

abbrev pub label_of_base : Option Base → String
label_of_base none = "Base no reportada"
label_of_base (some base) = String.◌++◌ (to_string base.id_upper) (
    String.◌++◌ " · " (
      String.◌++◌ (to_string base.source_upper)
        (String.◌++◌ " inmutable · " (to_string base.behavior_upper))))

unfoldable pub collector_agent_mode : CollectorAgent → List Base → AgentMode
collector_agent_mode agent bases =
    let base = collector_base_for_agent agent bases in
    let origin = to_upper (text_of agent.effective_config_origin) in
    let status = to_upper (to_string (or_else agent.config_status (str "NOT_REPORTED"))) in
    let base_active = origin == "BASE" || starts_with status "BASE_" in
    let managed_active =
      not base_active && (truthy agent.config_id && is_positive (to_number agent.version)) in
    record {
      base = base;
      base_active = base_active;
      managed_active = managed_active;
      live_status = if base_active then base_live_status status else status;
      effective_label =
          if base_active
          then "Base activa · NOP"
          else if managed_active
          then String.◌++◌ "Administrada · "
              (String.◌++◌ (to_string agent.config_id) (String.◌++◌ " v" (to_string agent.version)))
          else "Esperando configuración efectiva";
      fallback_label = label_of_base base;
    }

pub record ReportedVersions : Type 0 where
  pub collector : String
  pub supervisor : String

abbrev pub either_fields : Option Fields → Option Fields → Option Fields
either_fields (some xs) other = some xs
either_fields none other = other

abbrev pub reported_attributes : CollectorAgent → Fields
reported_attributes agent = array (either_fields agent.attributes_upper agent.attributes)

unfoldable pub collector_reported_versions : CollectorAgent → ReportedVersions
collector_reported_versions agent = record {
  collector = text_of (field (reported_attributes agent) "o11y.collector.version");
  supervisor = text_of (field (reported_attributes agent) "o11y.supervisor.version");
}

unfoldable pub document_button_label : Value → String
document_button_label target =
    if starts_with (to_lower (trim (to_string target))) "collector"
    then "Ver configuración"
    else "Ver policy"

-- The fields of a version that tell whether it retires the configuration.
pub record Retirement : Type 0 where
  pub action_upper : Value
  pub action : Value
  pub active_upper : Value
  pub active : Value

unfoldable pub is_collector_version_inactive : Retirement → Bool
is_collector_version_inactive version =
    to_upper (to_string (or_else version.action_upper (or_else version.action (str "PUBLISHED"))))
      == "DEACTIVATED"
    || (is_false version.active_upper || is_false version.active)
