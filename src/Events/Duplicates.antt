-- ===== src/Events/Duplicates.antt =====
-- The names that more than one event bears: `duplicateHTTPEventNames` and
-- `duplicateTelemetryEventNames`.
pub mod Laws
use otel_opamp_control_plane.Js.{one_of}
use otel_opamp_control_plane.Events.{EventDraft, array, name_text}
use otel_opamp_control_plane.Prelude.{
  ℕ, zero, suc, ◌+◌, ◌-◌, ◌*◌, ◌/◌, ◌%◌, ◌≤◌, ◌<◌, Char, code, String, ◌≡◌, refl, sym, ap, ◌∙◌,
  subst, ◌≢◌, ◌↔◌, ◌⊎◌, inl, inr, Bool, true, false, not, ◌&&◌, ◌||◌, Option, none, some, List, [],
  ◌∷◌, ◌++◌, map, reverse, foldl, arith, ◌==◌, starts_with, eq_iff, eq_refl, ltb, leb, eqb,
  is_empty, empty_lem, if◌then◌else◌, Bool-cases, Option-cases, leb→le, ltb→lt, tests, length,
  get_elem?, any, all, filter, count, length-filter, All, All-filter, All-append, count-le,
  All-of_count_eq, count_congr, All-intro, All-map, All-zip, count-eq-length_iff, count-le-length,
}

-- The loop: `seen` and `duplicates` hold what the two sets hold, `duplicates` in the reverse order.
unfoldable pub collect : List String → List String → List String → List String
collect seen duplicates [] = reverse duplicates
collect seen duplicates (name ∷ names) =
    let skipped = collect seen duplicates names in
    let known = collect (name ∷ seen) duplicates names in
    let added = collect (name ∷ seen) (name ∷ duplicates) names in
    if is_empty name
    then skipped
    else if one_of seen name && not (one_of duplicates name)
    then added
    else known

unfoldable pub duplicate_http_event_names : EventDraft → List String
duplicate_http_event_names p = collect [] [] (map name_text (array p.body_event_policies))

unfoldable pub duplicate_telemetry_event_names : EventDraft → List String
duplicate_telemetry_event_names p =
    collect [] [] (map name_text (array p.body_event_policies ++ array p.messaging_event_policies))
