-- ===== src/Capture/Sources.antt =====
-- What a policy captures, described by the sources that each part of it may read.
use otel_opamp_control_plane.Capture.{
  Kind, header, body_path, query_param, method_path, path_param, message_property, ValueSource,
  HttpMetric, Method, Policy, Capture, owner_of,
}
use otel_opamp_control_plane.Events.{EventPolicy, Field}
use otel_opamp_control_plane.Js.{Value, str, is_false}
use otel_opamp_control_plane.Prelude.{
  String, ◌≡◌, ◌⊎◌, false, Option, none, some, List, [], ◌∷◌, Exists,
}

-- The sources of a part of a policy, each with the kind of what is read there.
abbrev pub Sources : Type 0
Sources = List (String × Kind)

abbrev pub http_sources : Sources
http_sources =
    ("REQUEST_BODY", body_path)
    ∷ ("RESPONSE_BODY", body_path)
    ∷ ("REQUEST_HEADER", header)
    ∷ ("RESPONSE_HEADER", header)
    ∷ ("REQUEST_QUERY", query_param)
    ∷ ("REQUEST_PATH_PARAM", path_param)
    ∷ []

abbrev pub messaging_sources : Sources
messaging_sources =
    ("MESSAGE_HEADER", header)
    ∷ ("MESSAGE_PROPERTY", message_property)
    ∷ ("PAYLOAD", body_path)
    ∷ []

abbrev pub method_sources : Sources
method_sources = ("ARGUMENT", method_path) ∷ ("RETURN", method_path) ∷ []

-- The source is one of them, and what is read there is of this kind.
abbrev pub OfKind : Sources → Value → Kind → Type 0
OfKind sources source kind = Exists (λ s. (source ≡ str s.0) × (kind ≡ s.1)) sources

-- A capture of a path at a source.
abbrev pub Reads : Sources → (source path : Value) → (Kind → Value) → Capture → Type 0
Reads sources source path owner c =
    OfKind sources source c.kind × (c.value ≡ path) × (c.owner ≡ owner c.kind)

-- A capture of the header of that name.
abbrev pub ReadsHeader : Value → Capture → Value → Type 0
ReadsHeader owner c name = (c.kind ≡ header) × (c.value ≡ name) × (c.owner ≡ owner)

abbrev pub condition_owner : EventPolicy → Kind → Value
condition_owner e body_path = owner_of e.id e.event_name "bodyEvent"
condition_owner e _ = owner_of e.id e.event_name "httpEvent"

abbrev pub ByMetric : Capture → HttpMetric → Type 0
ByMetric c m =
    (is_false m.enabled ≡ false)
    × Exists (ReadsHeader (owner_of m.id m.name "httpMetric") c) m.custom_headers

abbrev pub ByHttpEvent : Capture → EventPolicy → Type 0
ByHttpEvent c e =
    (is_false e.enabled ≡ false)
    × (Exists (λ f. Reads http_sources f.source f.path (condition_owner e) c) e.conditions
        ⊎ Exists
            (λ f.
              Reads http_sources f.source f.path (λ k. owner_of e.id e.event_name "httpEvent") c)
            e.fields)

abbrev pub ByMessagingEvent : Capture → EventPolicy → Type 0
ByMessagingEvent c e =
    let by = λ (f : Field).
      Reads messaging_sources f.source f.path (λ k. owner_of e.id e.event_name "messagingEvent")
        c in
    (is_false e.enabled ≡ false) × (Exists by e.conditions ⊎ Exists by e.fields)

abbrev pub ByValue : Method → Capture → ValueSource → Type 0
ByValue m c v = Reads method_sources v.source v.path (λ k. owner_of m.id m.method_name "method") c

abbrev pub ByMetricValue : Method → Capture → Option ValueSource → Type 0
ByMetricValue m c none = ⊥
ByMetricValue m c (some v) = ByValue m c v

abbrev pub ByMethod : Capture → Method → Type 0
ByMethod c m =
    (is_false m.enabled ≡ false)
    × (Exists (ByValue m c) m.captures ⊎ Exists (ByMetricValue m c) m.metric_values)

-- The policy makes the capture: by a header of its own, a header of an HTTP metric, an HTTP event, a
-- messaging event or a method, those whose `enabled` is `false` apart.
abbrev pub Captures : Policy → Capture → Type 0
Captures p c =
    (Exists (ReadsHeader (str "requestHeaders") c) p.request_headers
      ⊎ (Exists (ReadsHeader (str "responseHeaders") c) p.response_headers
          ⊎ Exists (ByMetric c) p.metric_policies))
    ⊎ (Exists (ByHttpEvent c) p.body_event_policies
        ⊎ (Exists (ByMessagingEvent c) p.messaging_event_policies
            ⊎ Exists (ByMethod c) p.method_policies))
