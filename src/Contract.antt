-- ===== src/Contract.antt =====
-- ui/src/capture-security.js, second part: what the wire format demands of a policy
-- (`policyWireContractErrors`) and whether an event has an effect (`httpEventHasOutput`,
-- `messagingEventHasOutput`). The policy is what was parsed from JSON: an array may be missing or be
-- something else, and an item of it may be no object (`none`).
pub mod Laws
use Prim.Native.String
use otel_opamp_control_plane.Js.{Value, is, is_true, is_false, truthy, text_of}
use otel_opamp_control_plane.Js.Decimal.{decimal}
use otel_opamp_control_plane.Capture.{HttpMetric, Method, ValueSource}
use otel_opamp_control_plane.Events.{EventPolicy, EventMetric, EventDraft, StaticAttribute, array}
use otel_opamp_control_plane.Events.Duplicates.{duplicate_telemetry_event_names}
use otel_opamp_control_plane.Prelude.{
  ℕ, ◌+◌, String, Bool, true, false, not, ◌&&◌, ◌||◌, Option, none, some, List, [], ◌∷◌, ◌++◌,
  is_empty, if◌then◌else◌, concat_map, any,
}

pub data Collection (A : Type 0) : Type 0 where
  missing not_array : Collection A
  items : List (Option A) → Collection A

-- `array(value)`
abbrev pub entries_of : {A : Type 0} → Collection A → List (Option A)
entries_of (items xs) = xs
entries_of _ = []

-- The objects among the items.
abbrev pub objects : {A : Type 0} → List (Option A) → List A
objects [] = []
objects (none ∷ xs) = objects xs
objects (some x ∷ xs) = x ∷ objects xs

pub record WirePolicy : Type 0 where
  pub metric_policies : Collection HttpMetric
  pub method_policies : Collection Method
  pub body_event_policies : Collection EventPolicy
  pub event_metric_policies : Collection EventMetric
  pub messaging_event_policies : Collection EventPolicy
  pub messaging_metric_policies : Collection EventMetric

-- `array(attribute?.destinations).includes("SPAN")`
abbrev pub to_span : List Value → Bool
to_span destinations = any (λ d. is d "SPAN") destinations

abbrev pub static_to_span : StaticAttribute → Bool
static_to_span a = to_span (array a.destinations)

-- An enabled metric that counts the event.
unfoldable pub has_metric : List (Option EventMetric) → String → Bool
has_metric metrics name =
    not (is_empty name) && any (λ m. is_true m.enabled && is m.event_name name) (objects metrics)

unfoldable pub http_event_has_output : WirePolicy → Option EventPolicy → Bool
unfolding has_metric
http_event_has_output p none = false
http_event_has_output p (some e) =
    is_false e.enabled
    || (truthy e.log_enabled
        || (any static_to_span (array e.static_attributes)
            || (any (λ f. to_span f.destinations) e.fields
                || (any (λ f. to_span f.destinations) e.derived_fields
                    || has_metric (entries_of p.event_metric_policies) (text_of e.event_name)))))

unfoldable pub messaging_event_has_output : WirePolicy → Option EventPolicy → Bool
unfolding has_metric
messaging_event_has_output p none = false
messaging_event_has_output p (some e) =
    is_false e.enabled
    || (truthy e.log_enabled
        || (any static_to_span (array e.static_attributes)
            || (any (λ f. to_span f.destinations) e.fields
                || has_metric (entries_of p.messaging_metric_policies) (text_of e.event_name))))

-- `${name}[${index}]`
abbrev pub at : String → ℕ → String
at name index = String.◌++◌ name (String.◌++◌ "[" (String.◌++◌ (decimal index) "]"))

-- The errors of the items of an array, each with its index.
abbrev pub indexed {ℓ} : {A : Type ℓ} → (ℕ → A → List String) → ℕ → List A → List String
indexed errors index [] = []
indexed errors index (x ∷ xs) = errors index x ++ indexed errors (index + 1) xs

-- An error if the test holds.
abbrev pub error_if : Bool → String → List String
error_if true message = message ∷ []
error_if false message = []

unfoldable pub value_source_contract_errors : String → Option ValueSource → List String
value_source_contract_errors owner none = []
value_source_contract_errors owner (some v) =
    if is v.source "ARGUMENT" && not v.has_argument_index
    then String.◌++◌ owner " requiere argumentIndex explícito para source=ARGUMENT." ∷ []
    else error_if (is v.source "CONSTANT" && not v.has_constant)
        (String.◌++◌ owner " requiere constant explícito para source=CONSTANT.")

abbrev pub is_bool : Value → Bool
is_bool (Value.bool b) = true
is_bool v = false

-- `!has(item, "enabled") || typeof item.enabled !== "boolean"`
abbrev pub lacks_enabled : {A : Type 0} → (A → Value) → Option A → Bool
lacks_enabled enabled none = true
lacks_enabled enabled (some x) = not (is_bool (enabled x))

-- One round of the loop over `policyCollections`.
unfoldable pub collection_errors : {A : Type 0} → String → (A → Value) → Collection A → List String
collection_errors name enabled missing = []
collection_errors name enabled not_array = String.◌++◌ name " debe ser un arreglo." ∷ []
collection_errors name enabled (items xs) =
    indexed
      (λ i x.
        error_if (lacks_enabled enabled x)
          (String.◌++◌ (at name i) " requiere enabled boolean explícito."))
      0 xs

unfoldable pub metric_errors : ℕ → Option HttpMetric → List String
metric_errors i none = []
metric_errors i (some m) =
    value_source_contract_errors (String.◌++◌ (at "metricPolicies" i) ".value") m.value

unfoldable pub method_errors : ℕ → Option Method → List String
method_errors i none = []
method_errors i (some m) =
    indexed
      (λ j c.
        value_source_contract_errors (String.◌++◌ (at "methodPolicies" i) (at ".captures" j))
          (some c))
      0 m.captures
    ++ indexed
        (λ j v.
          value_source_contract_errors
            (String.◌++◌ (at "methodPolicies" i) (String.◌++◌ (at ".metrics" j) ".value")) v)
        0 m.metric_values

-- The draft whose event names are compared; the name of an item that is no object is the empty text,
-- which is skipped.
abbrev pub named_events : WirePolicy → EventDraft
named_events p = record {
  body_event_policies = some (objects (entries_of p.body_event_policies));
  event_metric_policies = none;
  messaging_event_policies = some (objects (entries_of p.messaging_event_policies));
  messaging_metric_policies = none;
}

abbrev duplicate_error : String → List String
duplicate_error name =
    String.◌++◌
      "eventName debe ser único entre bodyEventPolicies y messagingEventPolicies; duplicado: "
      (String.◌++◌ name ".")
    ∷ []

abbrev no_output : String → ℕ → String
no_output name i =
    String.◌++◌ (at name i)
      " no tiene una salida efectiva: añade un atributo al span, habilita el log o crea una métrica para el evento."

-- `none` is a policy that is no object.
unfoldable pub policy_wire_contract_errors : Option WirePolicy → List String
policy_wire_contract_errors none = "La policy debe ser un objeto JSON." ∷ []
policy_wire_contract_errors (some p) =
    collection_errors "metricPolicies" HttpMetric.enabled p.metric_policies
    ++ (collection_errors "methodPolicies" Method.enabled p.method_policies
        ++ (collection_errors "bodyEventPolicies" EventPolicy.enabled p.body_event_policies
            ++ (collection_errors "eventMetricPolicies" EventMetric.enabled p.event_metric_policies
                ++ (collection_errors "messagingEventPolicies" EventPolicy.enabled
                      p.messaging_event_policies
                    ++ (collection_errors "messagingMetricPolicies" EventMetric.enabled
                          p.messaging_metric_policies
                        ++ (indexed metric_errors 0 (entries_of p.metric_policies)
                            ++ (indexed method_errors 0 (entries_of p.method_policies)
                                ++ (concat_map duplicate_error
                                      (duplicate_telemetry_event_names (named_events p))
                                    ++ (indexed
                                          (λ i e.
                                            error_if (not (http_event_has_output p e))
                                              (no_output "bodyEventPolicies" i))
                                          0 (entries_of p.body_event_policies)
                                        ++ indexed
                                            (λ i e.
                                              error_if (not (messaging_event_has_output p e))
                                                (no_output "messagingEventPolicies" i))
                                            0 (entries_of p.messaging_event_policies))))))))))
