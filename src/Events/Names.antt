-- ===== src/Events/Names.antt =====
-- Fresh names: `nextHTTPEventName` and `nextMessagingEventName`.
pub mod Fresh
use otel_opamp_control_plane.Prelude.{
  ℕ, zero, suc, ◌+◌, ◌-◌, ◌*◌, ◌/◌, ◌%◌, ◌≤◌, ◌<◌, Char, code, String, ◌≡◌, refl, sym, ap, ◌∙◌,
  subst, ◌≢◌, ◌↔◌, ◌⊎◌, inl, inr, Bool, true, false, not, ◌&&◌, ◌||◌, Option, none, some, List, [],
  ◌∷◌, ◌++◌, map, reverse, foldl, arith, ◌==◌, starts_with, eq_iff, eq_refl, ltb, leb, eqb,
  is_empty, empty_lem, if◌then◌else◌, Bool-cases, Option-cases, leb→le, ltb→lt, tests, length,
  get_elem?, any, all, filter, count, length-filter, All, All-filter, All-append, count-le,
  All-of_count_eq, count_congr, All-intro, All-map, All-zip, count-eq-length_iff,
}
use Prim.Native.String
use otel_opamp_control_plane.Js.{one_of}
use otel_opamp_control_plane.Js.Decimal.{decimal}
use otel_opamp_control_plane.Js.Set.{unique}
use otel_opamp_control_plane.Events.{EventPolicy, EventDraft, array, name_text}

-- `${base}-${suffix}`
unfoldable pub candidate : String → ℕ → String
candidate base suffix = String.◌++◌ base (String.◌++◌ "-" (decimal suffix))

-- `while (used.has(…)) suffix += 1`; `none` means that the fuel ran out.
unfoldable pub search_from : ℕ → List String → String → ℕ → Option String
search_from zero used base suffix = none
search_from (suc fuel) used base suffix =
    let rest = search_from fuel used base (suffix + 1) in
    if one_of used (candidate base suffix) then rest else some (candidate base suffix)

-- One more round than there are used names.
unfoldable pub next_name : List String → String → Option String
next_name used base =
    if one_of used base then search_from (suc (length used)) used base 2 else some base

unfoldable pub next_http_event_name : List EventPolicy → String → Option String
next_http_event_name events base = next_name (unique (map name_text events)) base

unfoldable pub next_messaging_event_name : EventDraft → String → Option String
next_messaging_event_name p base =
    next_name
      (unique (map name_text (array p.body_event_policies ++ array p.messaging_event_policies)))
      base
