-- ===== src/Events/Output.antt =====
-- The attribute `event.name` of an event: `eventNameOutput` reads it, `withEventNameOutput` writes it
-- (ui/src/telemetry-events.js).
pub mod Laws
use otel_opamp_control_plane.Js.{
  Value, undefined, str, num, Num, whole, is, or_else, truthy, to_string, default_to,
}
use otel_opamp_control_plane.Events.{EventPolicy, StaticAttribute, array}
use otel_opamp_control_plane.Prelude.{
  ℕ, zero, suc, ◌+◌, ◌-◌, ◌*◌, ◌/◌, ◌%◌, ◌≤◌, ◌<◌, Char, code, String, ◌≡◌, refl, sym, ap, ◌∙◌,
  subst, ◌≢◌, ◌↔◌, ◌⊎◌, inl, inr, Bool, true, false, not, ◌&&◌, ◌||◌, Option, none, some, List, [],
  ◌∷◌, ◌++◌, map, reverse, foldl, arith, ◌==◌, starts_with, eq_iff, eq_refl, ltb, leb, eqb,
  is_empty, empty_lem, if◌then◌else◌, Bool-cases, Option-cases, leb→le, ltb→lt, tests, length,
  get_elem?, any, all, filter, count, length-filter, All, All-filter, All-append, count-le,
  All-of_count_eq, count_congr, All-intro, All-map, All-zip, count-eq-length_iff, count-le-length,
}

pub record NameOutput : Type 0 where
  pub value : String
  pub destinations : List Value

abbrev pub is_event_name : StaticAttribute → Bool
is_event_name a = is a.attribute "event.name"

abbrev pub is_output : Value → Bool
is_output d = is d "SPAN" || is d "LOG"

-- `attributes.find((item) => item?.attribute === "event.name")`
abbrev pub find_event_name : List StaticAttribute → Option StaticAttribute
find_event_name [] = none
find_event_name (a ∷ items) =
    let rest = find_event_name items in if is_event_name a then some a else rest

abbrev pub read_output : Option StaticAttribute → NameOutput
read_output none = record { value = ""; destinations = [] }
read_output (some a) = record {
  value = to_string (or_else a.value (str ""));
  destinations = filter is_output (array a.destinations);
}

unfoldable pub event_name_output : EventPolicy → NameOutput
event_name_output e = read_output (find_event_name (array e.static_attributes))

abbrev pub new_output : String → List Value → StaticAttribute
new_output value destinations = record {
  id = undefined;
  attribute = str "event.name";
  value = str value;
  type = str "STRING";
  destinations = some destinations;
}

abbrev pub written : String → List Value → StaticAttribute → StaticAttribute
written value destinations a = record a {
  attribute = str "event.name";
  value = str value;
  type = str "STRING";
  destinations = some destinations;
}

-- The loop with its variable `replaced`, and the `push` after it.
unfoldable pub write_output :
    Bool → String → List Value → List StaticAttribute → List StaticAttribute
write_output replaced value destinations [] =
    if not (is_empty value) && not replaced then new_output value destinations ∷ [] else []
write_output replaced value destinations (a ∷ items) =
    let same = write_output replaced value destinations items in
    let done = write_output true value destinations items in
    if not (is_event_name a)
    then a ∷ same
    else if not (is_empty value) && not replaced
    then written value destinations a ∷ done
    else same

-- `normalizedValue`, of a parameter whose default is the empty text.
unfoldable pub normalized_value : Value → String
unfolding to_string
normalized_value value = to_string (default_to (str "") value)

unfoldable pub with_event_name_output : EventPolicy → Value → List Value → EventPolicy
with_event_name_output e value destinations = record e {
  static_attributes = some (
      write_output false (normalized_value value) (filter is_output destinations)
        (array e.static_attributes));
}
