-- ===== src/Target.antt =====
-- ui/src/target-selection.js: which agents the editor of a policy shows as its destinations, and the
-- selector that ui/src/main.jsx publishes for them and loads again. `localeCompare` is a parameter.
pub mod Laws
pub mod Order
use otel_opamp_control_plane.Js.Text.{includes as contains, trim, to_lower, join}
use otel_opamp_control_plane.Prelude.{
  Ordering, ℕ, zero, suc, ◌+◌, ◌-◌, ◌*◌, ◌/◌, ◌%◌, ◌≤◌, ◌<◌, Char, code, String, ◌≡◌, refl, sym, ap,
  ◌∙◌, subst, ◌≢◌, ◌↔◌, ◌⊎◌, inl, inr, Bool, true, false, not, ◌&&◌, ◌||◌, Option, none, some, List,
  [], ◌∷◌, ◌++◌, map, reverse, foldl, arith, ◌==◌, starts_with, eq_iff, eq_refl, ltb, leb, eqb,
  is_empty, empty_lem, if◌then◌else◌, Bool-cases, Option-cases, leb→le, ltb→lt, tests, length,
  get_elem?, concat_map, any, all, filter, count, length-filter, All, All-filter, All-append,
  count-le, All-of_count_eq, count_congr, All-intro, All-map, All-zip, count-eq-length_iff,
  count-le-length, then_iff, both_iff, not-false, not_below, same_iff, not_equal_iff,
  equal_false_iff, not_or, not_zero,
}
use otel_opamp_control_plane.Js.{Value, str, truthy, strict_eq, to_string, text_of}
use otel_opamp_control_plane.Js.Sort.{or_then, sort}
use otel_opamp_control_plane.Js.Object.{from_entries}
use otel_opamp_control_plane.Deployment.{Agent, Selector, field, includes}
use otel_opamp_control_plane.Events.{array}

-- A row of the form.
pub record AttributeRow : Type 0 where
  pub key : String
  pub value : Value

pub record TargetSelection : Type 0 where
  pub selected_agent_ids : Option (List Value)
  pub selected_services : Option (List Value)
  pub selector_attributes : Option (List AttributeRow)
  pub query : Value

unfoldable pub normalized_values : Option (List Value) → List Value
normalized_values values = filter truthy (array values)

abbrev pub is_given : AttributeRow → Bool
is_given row = not (is_empty row.key) && truthy row.value

-- The rows with a key and a value; a row is an object, so `normalizedValues` keeps it.
unfoldable pub given_rows : Option (List AttributeRow) → List AttributeRow
given_rows rows = filter is_given (array rows)

unfoldable pub matches_target_selector : Agent → TargetSelection → Bool
matches_target_selector agent selection =
    let agent_ids = normalized_values selection.selected_agent_ids in
    let services = normalized_values selection.selected_services in
    (eqb (length agent_ids) 0 || includes agent_ids agent.uid)
    && ((eqb (length services) 0 || includes services agent.service)
        && all (λ row. strict_eq (field agent.attributes row.key) row.value)
            (given_rows selection.selector_attributes))

-- `values.join(" ")`, which takes a missing value as the empty text.
abbrev pub joined_text : Value → String
joined_text Value.undefined = ""
joined_text Value.null = ""
joined_text v = to_string v

-- `String(query)`, where the default of the parameter is the empty text.
abbrev pub query_text : Value → String
query_text Value.undefined = ""
query_text v = to_string v

unfoldable pub matches_target_query : Agent → Value → Bool
matches_target_query agent query =
    let normalized_query = to_lower (trim (query_text query)) in
    let found =
      contains
        (to_lower (
          join " " (
            map joined_text (
              agent.uid
              ∷ agent.service
              ∷ concat_map (λ (key, value). str key ∷ value ∷ []) agent.attributes))))
        normalized_query in
    if is_empty normalized_query then true else found

unfoldable pub filter_visible_target_agents : Option (List Agent) → TargetSelection → List Agent
filter_visible_target_agents agents selection =
    filter
      (λ agent.
        matches_target_selector agent selection && matches_target_query agent selection.query)
      (array agents)

-- `{ key, value }` as a pair.
abbrev pub pair_of : AttributeRow → String × Value
pair_of row = (row.key, row.value)

-- The selector of the page, as it is published (ui/src/main.jsx).
unfoldable pub published_selector : TargetSelection → Selector
published_selector selection = record {
  instance_uids = array selection.selected_agent_ids;
  services = array selection.selected_services;
  attributes = from_entries [] (map pair_of (given_rows selection.selector_attributes));
}

abbrev pub row_of : String × Value → AttributeRow
row_of pair = record { key = pair.0; value = pair.1 }

-- What `loadVersion` sets from the selector of a stored version (ui/src/main.jsx).
unfoldable pub loaded_selection : Selector → TargetSelection
loaded_selection selector = record {
  selected_agent_ids = some selector.instance_uids;
  selected_services = some selector.services;
  selector_attributes = some (map row_of selector.attributes);
  query = str "";
}

module _ (locale_compare : String → String → Ordering) where
  abbrev pub compare_agents : Agent → Agent → Ordering
  compare_agents left right =
      or_then (locale_compare (text_of left.service) (text_of right.service))
        (locale_compare (text_of left.uid) (text_of right.uid))

  unfoldable pub create_target_inventory_snapshot : Option (List Agent) → List Agent
  create_target_inventory_snapshot agents = sort compare_agents (array agents)
