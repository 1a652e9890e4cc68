-- ===== src/Capture.antt =====
-- ui/src/capture-security.js, first part: which captures of a policy a deny list blocks
-- (`policyCaptureDenyViolations`). A policy is a record of the arrays that the function reads; an
-- array that is missing is empty here, as `array(…)` makes it.
pub mod Overlap
pub mod Sources
pub mod Calls
pub mod Denied
use Prim.Native.String
use otel_opamp_control_plane.Js.{Value, str, or_else, text_of, is, is_false, strict_eq}
use otel_opamp_control_plane.Js.Text.{trim, to_lower}
use otel_opamp_control_plane.Events.{EventPolicy, Field}
use otel_opamp_control_plane.Prelude.{
  code, String, Bool, ◌&&◌, ◌||◌, Option, none, some, List, [], ◌∷◌, ◌++◌, map, ◌==◌, starts_with,
  eqb, is_empty, if◌then◌else◌, concat_map, any, filter,
}

pub data Kind : Type 0 where
  header body_path query_param method_path path_param message_property : Kind

-- The value of a metric or the capture of a method: where it is read.
pub record ValueSource : Type 0 where
  pub source : Value
  pub path : Value
  pub has_argument_index : Bool
  pub has_constant : Bool

pub record HttpMetric : Type 0 where
  pub id : Value
  pub name : Value
  pub enabled : Value
  pub custom_headers : List Value
  pub value : Option ValueSource

pub record Method : Type 0 where
  pub id : Value
  pub method_name : Value
  pub enabled : Value
  pub captures : List ValueSource
  pub metric_values : List (Option ValueSource)

pub record Policy : Type 0 where
  pub request_headers : List Value
  pub response_headers : List Value
  pub metric_policies : List HttpMetric
  pub body_event_policies : List EventPolicy
  pub messaging_event_policies : List EventPolicy
  pub method_policies : List Method

-- An entry of the deny list.
pub record Entry : Type 0 where
  pub kind : Value
  pub value : Value

pub record Violation : Type 0 where
  pub kind : Kind
  pub value : String
  pub owner : Value

unfoldable pub kind_text : Kind → String
kind_text header = "HEADER"
kind_text body_path = "BODY_PATH"
kind_text query_param = "QUERY_PARAM"
kind_text method_path = "METHOD_PATH"
kind_text path_param = "PATH_PARAM"
kind_text message_property = "MESSAGE_PROPERTY"

unfoldable pub normalize_header_name : Value → String
normalize_header_name v = to_lower (trim (text_of v))

-- `.replace(/^\$\.?/, "")`
unfoldable pub strip_root : String → String
strip_root String.[] = ""
strip_root (String.◌∷◌ c String.[]) = if eqb (code c) 36 then "" else String.◌∷◌ c ""
strip_root (String.◌∷◌ c (String.◌∷◌ d s)) =
    if eqb (code c) 36
    then (if eqb (code d) 46 then s else String.◌∷◌ d s)
    else String.◌∷◌ c (String.◌∷◌ d s)

unfoldable pub normalize_body_path : Value → String
normalize_body_path v = strip_root (trim (text_of v))

unfoldable pub paths_overlap : (captured blocked : String) → Bool
paths_overlap captured blocked =
    captured == blocked
    || (is_empty captured
        || (is_empty blocked
            || (starts_with captured (String.◌++◌ blocked ".")
                || (starts_with captured (String.◌++◌ blocked "[")
                    || (starts_with blocked (String.◌++◌ captured ".")
                        || starts_with blocked (String.◌++◌ captured "["))))))

-- The normal form of a captured value, and of an entry of its kind.
unfoldable pub canonical : Kind → Value → String
canonical header v = normalize_header_name v
canonical body_path v = normalize_body_path v
canonical _ v = trim (text_of v)

-- `denied[kind]`
unfoldable pub denied : List Entry → Kind → List String
denied entries kind =
    map (λ e. canonical kind e.value) (filter (λ e. is e.kind (kind_text kind)) entries)

-- Headers, parameters and properties are compared whole, paths by their overlap.
unfoldable pub blocks : Kind → (captured blocked : String) → Bool
blocks body_path captured blocked = paths_overlap captured blocked
blocks method_path captured blocked = paths_overlap captured blocked
blocks _ captured blocked = captured == blocked

-- A call of `add`.
pub record Capture : Type 0 where
  pub kind : Kind
  pub value : Value
  pub owner : Value

unfoldable pub is_denied : List Entry → Capture → Bool
is_denied entries c = any (blocks c.kind (canonical c.kind c.value)) (denied entries c.kind)

unfoldable pub violation_of : Capture → Violation
violation_of c =
    let value = canonical c.kind c.value in
    record { kind = c.kind; value = if is_empty value then "<root>" else value; owner = c.owner }

abbrev pub one_capture : Kind → Value → Value → List Capture
one_capture kind value owner = record { kind = kind; value = value; owner = owner } ∷ []

-- `a || b || "…"`
abbrev pub owner_of : Value → Value → String → Value
owner_of a b default_owner = or_else a (or_else b (str default_owner))

-- The captures of `requestHeaders`, `responseHeaders` and `metricPolicies`.
unfoldable pub header_captures : Policy → List Capture
header_captures p =
    concat_map (λ name. one_capture header name (str "requestHeaders")) p.request_headers
    ++ (concat_map (λ name. one_capture header name (str "responseHeaders")) p.response_headers
        ++ concat_map
            (λ m.
              if is_false m.enabled
              then []
              else concat_map (λ name. one_capture header name (owner_of m.id m.name "httpMetric"))
                  m.custom_headers)
            p.metric_policies)

-- The capture of a condition or a field of an HTTP event.
unfoldable pub http_capture : Field → (owner body_owner : Value) → List Capture
http_capture f owner body_owner =
    if is f.source "REQUEST_BODY" || is f.source "RESPONSE_BODY"
    then one_capture body_path f.path body_owner
    else if is f.source "REQUEST_HEADER" || is f.source "RESPONSE_HEADER"
    then one_capture header f.path owner
    else if is f.source "REQUEST_QUERY"
    then one_capture query_param f.path owner
    else if is f.source "REQUEST_PATH_PARAM"
    then one_capture path_param f.path owner
    else []

unfoldable pub http_event_captures : EventPolicy → List Capture
http_event_captures e =
    let owner = owner_of e.id e.event_name "httpEvent" in
    let body_owner = owner_of e.id e.event_name "bodyEvent" in
    if is_false e.enabled
    then []
    else concat_map (λ f. http_capture f owner body_owner) e.conditions
      ++ concat_map (λ f. http_capture f owner owner) e.fields

unfoldable pub messaging_capture : Value → Field → List Capture
messaging_capture owner f =
    if is f.source "MESSAGE_HEADER"
    then one_capture header f.path owner
    else if is f.source "MESSAGE_PROPERTY"
    then one_capture message_property f.path owner
    else if is f.source "PAYLOAD"
    then one_capture body_path f.path owner
    else []

unfoldable pub messaging_event_captures : EventPolicy → List Capture
messaging_event_captures e =
    if is_false e.enabled
    then []
    else concat_map (messaging_capture (owner_of e.id e.event_name "messagingEvent"))
        (e.conditions ++ e.fields)

-- A capture of a method, or the value of one of its metrics.
unfoldable pub method_capture : Value → ValueSource → List Capture
method_capture owner c =
    if is c.source "ARGUMENT" || is c.source "RETURN"
    then one_capture method_path c.path owner
    else []

unfoldable pub metric_value_capture : Value → Option ValueSource → List Capture
metric_value_capture owner none = []
metric_value_capture owner (some v) = method_capture owner v

unfoldable pub method_captures : Method → List Capture
method_captures m =
    let owner = owner_of m.id m.method_name "method" in
    if is_false m.enabled
    then []
    else concat_map (method_capture owner) m.captures
      ++ concat_map (metric_value_capture owner) m.metric_values

-- The calls of `add` in their order.
unfoldable pub policy_captures : Policy → List Capture
policy_captures p =
    header_captures p
    ++ (concat_map http_event_captures p.body_event_policies
        ++ (concat_map messaging_event_captures p.messaging_event_policies
            ++ concat_map method_captures p.method_policies))

unfoldable pub same_violation : Violation → Violation → Bool
same_violation v w =
    kind_text v.kind == kind_text w.kind && (v.value == w.value && strict_eq v.owner w.owner)

-- `filter((violation, index) => findIndex(same) === index)`: the first of each kind, value and owner
-- stays. An owner is a text or a value that is truthy, so a violation is the same as itself.
unfoldable pub first_of_each : (earlier violations : List Violation) → List Violation
first_of_each earlier [] = []
first_of_each earlier (v ∷ vs) =
    let rest = first_of_each (v ∷ earlier) vs in
    if any (λ w. same_violation w v) earlier then rest else v ∷ rest

unfoldable pub policy_capture_deny_violations : Policy → List Entry → List Violation
policy_capture_deny_violations p entries =
    first_of_each [] (map violation_of (filter (is_denied entries) (policy_captures p)))
