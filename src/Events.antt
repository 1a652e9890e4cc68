-- ===== src/Events.antt =====
-- The HTTP events of a policy draft (ui/src/telemetry-events.js) and its messaging events
-- (ui/src/messaging-events.js). Metrics refer to an event by its name.
pub mod Names
pub mod Edit
pub mod Duplicates
pub mod Output
pub mod Intent
use otel_opamp_control_plane.Prelude.{
  ℕ, zero, suc, ◌+◌, ◌-◌, ◌*◌, ◌/◌, ◌%◌, ◌≤◌, ◌<◌, Char, code, String, ◌≡◌, refl, sym, ap, ◌∙◌,
  subst, ◌≢◌, ◌↔◌, ◌⊎◌, inl, inr, Bool, true, false, not, ◌&&◌, ◌||◌, Option, none, some, List, [],
  ◌∷◌, ◌++◌, map, reverse, foldl, arith, ◌==◌, starts_with, eq_iff, eq_refl, ltb, leb, eqb,
  is_empty, empty_lem, if◌then◌else◌, Bool-cases, Option-cases, leb→le, ltb→lt, tests, length,
  get_elem?, any, all, filter, count, length-filter, All, All-filter, All-append, count-le,
  All-of_count_eq, count_congr, All-intro, All-map, All-zip, count-eq-length_iff,
}
use otel_opamp_control_plane.Js.{Value, str, or_else, to_string, is, truthy, strict_eq, one_of}

-- An attribute that an event sets; `destinations` may be missing.
pub record StaticAttribute : Type 0 where
  pub id : Value
  pub attribute : Value
  pub value : Value
  pub type : Value
  pub destinations : Option (List Value)

-- A captured field, a derived field or a condition of an event.
pub record Field : Type 0 where
  pub source : Value
  pub path : Value
  pub values : List Value
  pub attribute : Value
  pub destinations : List Value
  pub value_policy_type : Value

pub record EventPolicy : Type 0 where
  pub id : Value
  pub enabled : Value
  pub direction : Value
  pub scope : Value
  pub event_name : Value
  pub conditions : List Field
  pub fields : List Field
  pub derived_fields : List Field
  pub static_attributes : Option (List StaticAttribute)
  pub log_enabled : Value

pub record EventMetric : Type 0 where
  pub id : Value
  pub enabled : Value
  pub event_name : Value
  pub standard_attributes : List Value
  pub instrument : Value
  pub value_field : Value
  pub buckets : Option (List Value)

-- An array that the draft may lack.
pub record EventDraft : Type 0 where
  pub body_event_policies : Option (List EventPolicy)
  pub event_metric_policies : Option (List EventMetric)
  pub messaging_event_policies : Option (List EventPolicy)
  pub messaging_metric_policies : Option (List EventMetric)

-- `list || []`, and `Array.isArray(list) ? list : []`
abbrev pub array {ℓ} : {A : Type ℓ} → Option (List A) → List A
array none = []
array (some xs) = xs

-- `String(event?.eventName || "")`
abbrev pub name_text : EventPolicy → String
name_text e = to_string (or_else e.event_name (str ""))
