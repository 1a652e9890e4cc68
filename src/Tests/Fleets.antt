-- ===== src/Tests/Fleets.antt =====
-- The theorem on the policies of an agent, applied to a Java extension.
use otel_opamp_control_plane.Prelude.{
  Ordering, ◌≡◌, Bool, ◌&&◌, none, [], ◌∷◌, map, if◌then◌else◌, count, All,
}
use otel_opamp_control_plane.Js.{str, num, whole, undefined, is}
use otel_opamp_control_plane.Version.{Compare}
use otel_opamp_control_plane.Collector.Mode.{no_base}
use otel_opamp_control_plane.Fleet.{
  FleetAgent, PolicyEntry, is_entry, entry_of, java_policy_set_entries,
}
use otel_opamp_control_plane.Fleet.Laws.{IsEntry, java_policy_set_entries_lem}

abbrev java_agent : FleetAgent
java_agent = record {
  collector = record {
    uid = str "a1";
    service = str "orders";
    base_config = no_base;
    effective_config_origin = undefined;
    config_status = str "APPLIED";
    config_id = undefined;
    version = undefined;
    attributes_upper = none;
    attributes = none;
  };
  kind = str "java-extension";
  remote_config = undefined;
  live_status = str "CONNECTED";
  connection_status = undefined;
  transport = str "ws";
  policy_versions = (" policy-1 ", num (whole 2)) ∷ ("policy-2", num (whole 0)) ∷ [];
}

abbrev no_order : Compare
no_order left right = Ordering.eq

java_policy_set_entries_lem_example :
    All IsEntry (java_policy_set_entries no_order java_agent)
    × ((p : PolicyEntry → Bool)
        → count p (java_policy_set_entries no_order java_agent) ≡ (
            if is java_agent.kind "java-extension"
            then count
                (λ entry. p entry && is_entry entry)
                (map entry_of java_agent.policy_versions)
            else 0))
java_policy_set_entries_lem_example = java_policy_set_entries_lem no_order java_agent
