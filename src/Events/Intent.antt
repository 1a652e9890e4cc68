-- ===== src/Events/Intent.antt =====
-- What a metric of an event measures: `eventMetricIntent` reads it off the metric's instrument and
-- value, `configureEventMetricIntent` sets them (ui/src/telemetry-events.js).
pub mod Laws
use otel_opamp_control_plane.Js.{
  Value, undefined, str, num, Num, whole, is, or_else, truthy, to_string, default_to,
}
use otel_opamp_control_plane.Events.{EventMetric}
use otel_opamp_control_plane.Prelude.{
  ℕ, zero, suc, ◌+◌, ◌-◌, ◌*◌, ◌/◌, ◌%◌, ◌≤◌, ◌<◌, Char, code, String, ◌≡◌, refl, sym, ap, ◌∙◌,
  subst, ◌≢◌, ◌↔◌, ◌⊎◌, inl, inr, Bool, true, false, not, ◌&&◌, ◌||◌, Option, none, some, List, [],
  ◌∷◌, ◌++◌, map, reverse, foldl, arith, ◌==◌, starts_with, eq_iff, eq_refl, ltb, leb, eqb,
  is_empty, empty_lem, if◌then◌else◌, Bool-cases, Option-cases, leb→le, ltb→lt, tests, length,
  get_elem?, any, all, filter, count, length-filter, All, All-filter, All-append, count-le,
  All-of_count_eq, count_congr, All-intro, All-map, All-zip, count-eq-length_iff, count-le-length,
}

unfoldable pub event_metric_intent : EventMetric → String
event_metric_intent m =
    if is m.instrument "HISTOGRAM"
    then "DISTRIBUTION"
    else if truthy m.value_field
    then "TOTAL"
    else "COUNT"

abbrev pub default_buckets : List Value
default_buckets =
    num (whole 100) ∷ num (whole 500) ∷ num (whole 1000) ∷ num (whole 3000) ∷ num (whole 10000) ∷ []

-- `buckets?.length ? buckets : […]`
abbrev pub buckets_or_default : Option (List Value) → Option (List Value)
buckets_or_default none = some default_buckets
buckets_or_default (some []) = some default_buckets
buckets_or_default (some (b ∷ bs)) = some (b ∷ bs)

unfoldable pub configure_event_metric_intent : EventMetric → Value → Value → EventMetric
configure_event_metric_intent m intent default_numeric_field =
    if is intent "COUNT"
    then record m { instrument = str "COUNTER"; value_field = str ""; buckets = some [] }
    else if is intent "TOTAL"
    then record m {
      instrument = str "COUNTER";
      value_field = or_else m.value_field (default_to (str "") default_numeric_field);
      buckets = some [];
    }
    else if is intent "DISTRIBUTION"
    then record m {
      instrument = str "HISTOGRAM";
      value_field = or_else m.value_field (default_to (str "") default_numeric_field);
      buckets = buckets_or_default m.buckets;
    }
    else m
