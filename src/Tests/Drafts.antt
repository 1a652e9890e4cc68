-- ===== src/Tests/Drafts.antt =====
-- The theorems on the events of a draft, applied to a concrete draft.
use otel_opamp_control_plane.Events.Edit.Laws.{
  remove_event_at-Declared, rename_event_at-Declared, HttpMetricsDeclared, MessagingMetricsDeclared,
}
use otel_opamp_control_plane.Events.Names.Fresh.{next_event_name_total, FreshName}
use otel_opamp_control_plane.Events.Duplicates.Laws.{Reports, duplicate_event_names_iff}
use otel_opamp_control_plane.Events.Output.Laws.{
  event_name_output_lens, read_back, given_text, with_event_name_output-others,
}
use otel_opamp_control_plane.Prelude.{
  [], ◌∷◌, count, filter, not, ◌||◌, if◌then◌else◌, false, String, ◌≡◌, refl, some, ◌++◌, map,
  is_empty,
}
use otel_opamp_control_plane.Js.{truthy, str, undefined, to_string}
use otel_opamp_control_plane.Tests.{event, metric, draft}
use otel_opamp_control_plane.Events.Output.{
  is_event_name, event_name_output, normalized_value, with_event_name_output,
}
use otel_opamp_control_plane.Events.Intent.{event_metric_intent, configure_event_metric_intent}
use otel_opamp_control_plane.Events.Intent.Laws.{intent-configure}
use otel_opamp_control_plane.Events.{array, name_text}
use otel_opamp_control_plane.Events.Names.{next_http_event_name, next_messaging_event_name}
use otel_opamp_control_plane.Events.Edit.{
  remove_http_event_at, remove_messaging_event_at, rename_http_event_at, rename_messaging_event_at,
}
use otel_opamp_control_plane.Events.Duplicates.{
  duplicate_http_event_names, duplicate_telemetry_event_names,
}

http_declared : HttpMetricsDeclared draft
http_declared = (refl, (refl, tt))

messaging_declared : MessagingMetricsDeclared draft
messaging_declared = (refl, tt)

with_event_name_output-others_example :
    let before = array (event "order").static_attributes in
    let after =
      array (with_event_name_output (event "order") (str "created") []).static_attributes in
    (filter (λ a. not (is_event_name a)) after ≡ filter (λ a. not (is_event_name a)) before)
    × (count is_event_name after ≡ (if is_empty (given_text (str "created")) then 0 else 1))
with_event_name_output-others_example =
    with_event_name_output-others (event "order") (str "created") []

created_given : is_empty (given_text (str "created")) ≡ false
unfolding to_string
created_given = refl

placed_given : is_empty (given_text (str "placed")) ≡ false
unfolding to_string
placed_given = refl

intent-configure_example :
    let configured = λ (intent : String).
      event_metric_intent
        (configure_event_metric_intent (metric "order") (str intent) (str "amount")) in
    (configured "COUNT" ≡ "COUNT")
    × (configured "DISTRIBUTION" ≡ "DISTRIBUTION")
    × (configured "TOTAL" ≡ (
        if truthy (metric "order").value_field || truthy (str "amount") then "TOTAL" else "COUNT"))
intent-configure_example = intent-configure (metric "order") (str "amount")

remove_event_at-Declared_example :
    HttpMetricsDeclared (remove_http_event_at draft 1)
    × MessagingMetricsDeclared (remove_messaging_event_at draft 1)
remove_event_at-Declared_example = remove_event_at-Declared draft 1 http_declared messaging_declared

rename_event_at-Declared_example :
    HttpMetricsDeclared (rename_http_event_at draft 1 (str "return"))
    × MessagingMetricsDeclared (rename_messaging_event_at draft 1 (str "return"))
rename_event_at-Declared_example =
    rename_event_at-Declared draft 1 (str "return") refl http_declared messaging_declared

next_event_name_total_example :
    let of_draft = array draft.body_event_policies ++ array draft.messaging_event_policies in
    ((name : String) × (next_http_event_name (array draft.body_event_policies) "order" ≡ some name)
      × FreshName (map name_text (array draft.body_event_policies)) "order" name)
    × ((name : String) × (next_messaging_event_name draft "order" ≡ some name)
        × FreshName (map name_text of_draft) "order" name)
next_event_name_total_example =
    next_event_name_total draft (array draft.body_event_policies) "order"

duplicate_event_names_iff_example :
    Reports (map name_text (array draft.body_event_policies)) (duplicate_http_event_names draft)
    × Reports
        (map name_text (array draft.body_event_policies ++ array draft.messaging_event_policies))
        (duplicate_telemetry_event_names draft)
duplicate_event_names_iff_example = duplicate_event_names_iff draft

event_name_output_lens_example :
    (event_name_output (with_event_name_output (event "order") (str "created") [])
      ≡ read_back (given_text (str "created")) [])
    × (with_event_name_output
          (with_event_name_output (event "order") (str "created") [])
          (str "placed")
          (str "SPAN" ∷ [])
        ≡ with_event_name_output (event "order") (str "placed") (str "SPAN" ∷ []))
event_name_output_lens_example =
    event_name_output_lens (event "order") (str "created") (str "placed") [] (str "SPAN" ∷ [])
      created_given placed_given

-- An attribute that lacks a value is cleared.
missing_value_cleared : normalized_value undefined ≡ ""
unfolding normalized_value
missing_value_cleared = refl
