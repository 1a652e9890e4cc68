-- ===== src/Target/Laws.antt =====
-- The destinations that the editor shows are those that the published selector takes.
use otel_opamp_control_plane.Target.{
  row_of, TargetSelection, is_given, given_rows, normalized_values, pair_of,
  matches_target_selector, published_selector, loaded_selection,
}
use otel_opamp_control_plane.Js.{Value, truthy, strict_eq}
use otel_opamp_control_plane.Js.Object.Laws.{Apart, from_entries_of_Apart}
use otel_opamp_control_plane.Deployment.{Agent, Selector, Fields, field, matches_selector}
use otel_opamp_control_plane.Events.{array}
use otel_opamp_control_plane.Prelude.{
  ◌≡◌, refl, ap, Bool, true, not, ◌&&◌, List, [], ◌∷◌, map, is_empty, all, filter, All,
}

-- All values are kept by `filter(Boolean)`.
abbrev pub Truthy : List Value → Type 0
Truthy values = All (λ v. truthy v ≡ true) values

filter_of_All :
    {A : Type 0} (p : A → Bool) (xs : List A) → All (λ x. p x ≡ true) xs → filter p xs ≡ xs
filter_of_All p [] h = refl
filter_of_All p (x ∷ xs) (hx, h) = rw (hx, filter_of_All p xs h) refl

all-map :
    {A B : Type 0} (f : A → B) (p : B → Bool) (xs : List A)
    → all p (map f xs) ≡ all (λ x. p (f x)) xs
all-map f p [] = refl
all-map f p (x ∷ xs) = ap (λ b. p (f x) && b) (all-map f p xs)

-- An agent is shown for a selection exactly if the published selector takes it, when the selected ids
-- and services are not empty texts and no attribute is given twice.
pub matches_selector-published :
    (agent : Agent) (selection : TargetSelection)
    → Truthy (array selection.selected_agent_ids)
    → Truthy (array selection.selected_services)
    → Apart (map pair_of (given_rows selection.selector_attributes))
    → matches_selector agent (published_selector selection)
      ≡ matches_target_selector agent selection
unfolding matches_selector matches_target_selector published_selector normalized_values
matches_selector-published agent selection ids services apart =
    let rows = given_rows selection.selector_attributes in
    rw
      (
        filter_of_All truthy (array selection.selected_agent_ids) ids,
        filter_of_All truthy (array selection.selected_services) services,
        from_entries_of_Apart [] (map pair_of rows) apart,
        all-map pair_of (λ pair. strict_eq (field agent.attributes pair.0) pair.1) rows,
      )
      refl

-- Every attribute has a key and a value.
abbrev pub Given : Fields → Type 0
Given pairs = All (λ pair. (not (is_empty pair.0) && truthy pair.1) ≡ true) pairs

loaded_rows : (pairs : Fields) → Given pairs → filter is_given (map row_of pairs) ≡ map row_of pairs
loaded_rows [] h = refl
loaded_rows ((key, value) ∷ pairs) (hx, h) = rw (hx, loaded_rows pairs h) refl

-- A stored version that is loaded into the editor shows the agents that its selector takes, when the
-- selector has no empty id, service, key or value.
pub matches_target_selector-loaded :
    (agent : Agent) (selector : Selector)
    → Truthy selector.instance_uids
    → Truthy selector.services
    → Given selector.attributes
    → matches_target_selector agent (loaded_selection selector) ≡ matches_selector agent selector
unfolding matches_selector matches_target_selector loaded_selection normalized_values given_rows
matches_target_selector-loaded agent selector ids services attributes =
    rw
      (
        filter_of_All truthy selector.instance_uids ids,
        filter_of_All truthy selector.services services,
        loaded_rows selector.attributes attributes,
        all-map row_of (λ row. strict_eq (field agent.attributes row.key) row.value)
            selector.attributes,
      )
      refl
