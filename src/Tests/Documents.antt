-- ===== src/Tests/Documents.antt =====
-- The theorems on the configuration of a collector, applied to a concrete document and agent.
use otel_opamp_control_plane.Js.{Value, str, num, whole, text_of}
use otel_opamp_control_plane.Js.Text.{trim, trim_start, trim_end, is_space, join}
use otel_opamp_control_plane.Yaml.{
  Block, yaml_mapping_block, block_from, find_block, entry_length, yaml_indent, sanitize_lines,
  split_lines, unix_newlines, sanitize_effective_collector_config, remove_yaml_mapping_path,
  remove_yaml_list_value, remove_yaml_null_key, remove_lines,
}
use otel_opamp_control_plane.Yaml.Bounds.{Between, yaml_mapping_block-Between}
use otel_opamp_control_plane.Yaml.Left.{Left}
use otel_opamp_control_plane.Yaml.Cleaned.{Outcome, sanitize_effective_collector_config_lem}
use Prim.Native.String
use otel_opamp_control_plane.Collector.Mode.{CollectorAgent, base_id, collector_agent_mode}
use otel_opamp_control_plane.Collector.Mode.Laws.{collector_agent_mode_lem}
use otel_opamp_control_plane.Prelude.{
  String, ◌≡◌, refl, false, ◌&&◌, none, some, List, [], ◌∷◌, starts_with, length,
}

abbrev document : List String
document =
    "extensions:" ∷ "  opamp:" ∷ "    server: x" ∷ "  health_check:" ∷ "    http: null" ∷ "service:"
    ∷ "  extensions:" ∷ "    - opamp" ∷ "    - health_check" ∷ []

abbrev opamp_block : Block
opamp_block = record { start = 1; end = 3; indent = 2 }

opamp_found : yaml_mapping_block document ("extensions" ∷ "opamp" ∷ []) ≡ some opamp_block
unfolding yaml_mapping_block block_from find_block entry_length yaml_indent trim trim_start is_space
opamp_found = refl

yaml_mapping_block-Between_example : Between 0 (length document) opamp_block
yaml_mapping_block-Between_example =
    yaml_mapping_block-Between document ("extensions" ∷ "opamp" ∷ []) opamp_block opamp_found

abbrev reported : Value
reported = str "extensions:\n  opamp:\n    server: x\nservice:\n\n"

sanitize_effective_collector_config_lem_example :
    (left : List String) × Left left (split_lines (unix_newlines (text_of reported)))
    × ((sanitize_effective_collector_config reported).body
        ≡ String.◌++◌ (trim_end (join "\n" left)) "\n")
    × Outcome (unix_newlines (text_of reported)) left (sanitize_effective_collector_config reported)
sanitize_effective_collector_config_lem_example = sanitize_effective_collector_config_lem reported

-- The blank lines at the end go with the extension.
reported_cleaned : (sanitize_effective_collector_config reported).body ≡ "extensions:\nservice:\n"
unfolding sanitize_effective_collector_config sanitize_lines remove_yaml_mapping_path
    remove_yaml_list_value remove_yaml_null_key remove_lines yaml_mapping_block block_from
    find_block entry_length yaml_indent trim trim_start trim_end is_space split_lines unix_newlines
    join text_of
reported_cleaned = refl

-- The extension, its use and the `null` go.
document_cleaned :
    (sanitize_lines document).0
    ≡ "extensions:" ∷ "  health_check:" ∷ "service:" ∷ "  extensions:" ∷ "    - health_check" ∷ []
unfolding sanitize_lines remove_yaml_mapping_path remove_yaml_list_value remove_yaml_null_key
    remove_lines yaml_mapping_block block_from find_block entry_length yaml_indent trim trim_start
    is_space
document_cleaned = refl

abbrev collector : CollectorAgent
collector = record {
  uid = str "c1";
  service = str "gateway";
  base_config = base_id "base-1";
  effective_config_origin = str "base";
  config_status = str "FAILED";
  config_id = str "managed-1";
  version = num (whole 4);
  attributes_upper = none;
  attributes = none;
}

collector_agent_mode_lem_example :
    let mode = collector_agent_mode collector [] in
    ((mode.base_active && mode.managed_active) ≡ false)
    × (starts_with mode.live_status "BASE_" ≡ mode.base_active)
collector_agent_mode_lem_example = collector_agent_mode_lem collector []
