-- ===== src/Tests/Captures.antt =====
-- The theorems on captures and on the wire format, applied to a concrete policy.
use otel_opamp_control_plane.Js.Text.{is_space, trim, to_lower}
use otel_opamp_control_plane.Tests.{event, metric}
use otel_opamp_control_plane.Capture.{
  Policy, Entry, Violation, header, paths_overlap, policy_capture_deny_violations, same_violation,
  is_denied, violation_of, policy_captures, header_captures, http_event_captures,
  messaging_event_captures, method_captures, denied, canonical, blocks, normalize_header_name,
  kind_text, first_of_each,
}
use otel_opamp_control_plane.Capture.Overlap.{Contains, paths_overlap_iff}
use otel_opamp_control_plane.Capture.Denied.{
  Separate, IsViolation, policy_capture_deny_violations_iff,
}
use otel_opamp_control_plane.Contract.{
  WirePolicy, missing, not_array, items, policy_wire_contract_errors,
}
use otel_opamp_control_plane.Contract.Laws.{MeetsContract, policy_wire_contract_errors-empty_iff}
use otel_opamp_control_plane.Js.{str, text_of}
use otel_opamp_control_plane.Prelude.{◌≡◌, refl, ◌↔◌, ◌⊎◌, true, none, some, List, [], ◌∷◌, In}

abbrev order_policy : Policy
order_policy = record {
  request_headers = str " X-Token " ∷ str "x-trace" ∷ [];
  response_headers = [];
  metric_policies = [];
  body_event_policies = event "order" ∷ [];
  messaging_event_policies = [];
  method_policies = [];
}

abbrev deny_list : List Entry
deny_list = record { kind = str "HEADER"; value = str "x-token" } ∷ []

paths_overlap_iff_example :
    (paths_overlap "order.items[0]" "order" ≡ true)
    ↔ (Contains "order.items[0]" "order" ⊎ Contains "order" "order.items[0]")
paths_overlap_iff_example = paths_overlap_iff "order.items[0]" "order"

policy_capture_deny_violations_iff_example :
    Separate (policy_capture_deny_violations order_policy deny_list)
    × ((v : Violation)
        → In v (policy_capture_deny_violations order_policy deny_list)
          ↔ IsViolation order_policy deny_list v)
policy_capture_deny_violations_iff_example =
    policy_capture_deny_violations_iff order_policy deny_list

-- The token is reported in the form it is compared in.
token_reported :
    policy_capture_deny_violations order_policy deny_list
    ≡ record { kind = header; value = "x-token"; owner = str "requestHeaders" } ∷ []
unfolding policy_capture_deny_violations policy_captures header_captures http_event_captures
    messaging_event_captures method_captures is_denied denied canonical blocks normalize_header_name
    kind_text violation_of first_of_each same_violation text_of trim to_lower is_space
token_reported = refl

abbrev wire_policy : WirePolicy
wire_policy = record {
  metric_policies = missing;
  method_policies = missing;
  body_event_policies = items (some (event "order") ∷ none ∷ []);
  event_metric_policies = items (some (metric "order") ∷ []);
  messaging_event_policies = not_array;
  messaging_metric_policies = missing;
}

policy_wire_contract_errors-empty_iff_example :
    (policy_wire_contract_errors (some wire_policy) ≡ []) ↔ MeetsContract wire_policy
policy_wire_contract_errors-empty_iff_example = policy_wire_contract_errors-empty_iff wire_policy
