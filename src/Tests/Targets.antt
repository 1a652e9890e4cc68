-- ===== src/Tests/Targets.antt =====
-- The theorems on destinations and stored versions, applied to a concrete selection and list.
use otel_opamp_control_plane.Js.{str, num, whole, undefined, is_true, to_number}
use otel_opamp_control_plane.Js.Object.Laws.{Apart}
use otel_opamp_control_plane.Events.{array}
use otel_opamp_control_plane.Tests.{agent}
use otel_opamp_control_plane.Deployment.{matches_selector}
use otel_opamp_control_plane.Target.{
  TargetSelection, pair_of, given_rows, published_selector, matches_target_selector,
}
use otel_opamp_control_plane.Target.Laws.{Truthy, matches_selector-published}
use otel_opamp_control_plane.Version.{Version, version_number, latest, mark}
use otel_opamp_control_plane.Version.Laws.{IsNumbered, rank, is_latest_iff}
use otel_opamp_control_plane.Prelude.{ℕ, ◌≤◌, ◌≡◌, refl, ◌↔◌, true, none, some, [], ◌∷◌, map, All}

abbrev orders_in_production : TargetSelection
orders_in_production = record {
  selected_agent_ids = some [];
  selected_services = some (str "orders" ∷ []);
  selector_attributes =
      some (record { key = "env"; value = str "prod" } ∷ record { key = ""; value = str "x" } ∷ []);
  query = str "";
}

services_given : Truthy (array orders_in_production.selected_services)
services_given = (refl, tt)

one_attribute : Apart (map pair_of (given_rows orders_in_production.selector_attributes))
unfolding given_rows
one_attribute = (refl, tt)

matches_selector-published_example :
    matches_selector agent (published_selector orders_in_production)
    ≡ matches_target_selector agent orders_in_production
matches_selector-published_example =
    matches_selector-published agent orders_in_production tt services_given one_attribute

abbrev version : ℕ → Version
version n = record {
  version_upper = num (whole n);
  version = undefined;
  config_id = undefined;
  config_id_upper = undefined;
  id = undefined;
  updated_at = undefined;
  created_at = undefined;
  target = str "java-extension";
  action = undefined;
  created_by = undefined;
  hash = undefined;
  selector_upper = none;
  selector = none;
  is_latest = undefined;
}

version-IsNumbered : (n : ℕ) → IsNumbered (version n)
unfolding version_number to_number
version-IsNumbered n = (n, refl)

is_latest_iff_example :
    (is_true (mark "policy-1" (latest (whole 0) (version 1 ∷ version 3 ∷ [])) (version 3)).is_latest
      ≡ true)
    ↔ All (λ w. rank w ≤ rank (version 3)) (version 1 ∷ version 3 ∷ [])
is_latest_iff_example =
    is_latest_iff "policy-1" (version 1 ∷ version 3 ∷ []) 1 (version 3)
      (version-IsNumbered 1, (version-IsNumbered 3, tt)) refl
