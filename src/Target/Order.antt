-- ===== src/Target/Order.antt =====
-- The order of the inventory of destinations.
use otel_opamp_control_plane.Prelude.{Ordering, String, ◌≡◌, Bool, Option, List, count}
use otel_opamp_control_plane.Deployment.{Agent}
use otel_opamp_control_plane.Events.{array}
use otel_opamp_control_plane.Js.Sort.Laws.{count-sort}
use otel_opamp_control_plane.Target.{compare_agents, create_target_inventory_snapshot}

module _ (locale_compare : String → String → Ordering) where
  -- The snapshot holds every agent as often as the list does.
  pub count-create_target_inventory_snapshot :
      (p : Agent → Bool) (agents : Option (List Agent))
      → count p (create_target_inventory_snapshot locale_compare agents) ≡ count p (array agents)
  unfolding create_target_inventory_snapshot
  count-create_target_inventory_snapshot p agents =
      count-sort (compare_agents locale_compare) p (array agents)
