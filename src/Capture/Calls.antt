-- ===== src/Capture/Calls.antt =====
-- The calls of `add` in `policyCaptureDenyViolations` are for the captures of the policy.
use otel_opamp_control_plane.Capture.{
  Kind, header, body_path, query_param, path_param, ValueSource, HttpMetric, Method, Policy,
  Capture, one_capture, owner_of, header_captures, http_capture, http_event_captures,
  messaging_capture, messaging_event_captures, method_capture, metric_value_capture,
  method_captures, policy_captures,
}
use otel_opamp_control_plane.Events.{EventPolicy, Field}
use otel_opamp_control_plane.Js.{Value, str, is, is_lem, is_false}
use otel_opamp_control_plane.Prelude.{
  String, ◌≡◌, refl, sym, ap, ◌∙◌, subst, ◌↔◌, ◌⊎◌, inl, inr, Bool, true, false, Option, none, some,
  List, [], ◌∷◌, ◌++◌, arith, ◌==◌, eq_refl, if◌then◌else◌, Bool-cases, concat_map, All, Exists, In,
  Exists-iff, Exists-append, Exists-concat_map, then_iff, both_iff, same_iff,
}
use otel_opamp_control_plane.Capture.Sources.{
  Sources, http_sources, messaging_sources, method_sources, OfKind, Reads, ReadsHeader,
  condition_owner, ByMetric, ByHttpEvent, ByMessagingEvent, ByValue, ByMetricValue, ByMethod,
  Captures,
}

-- The captures at the first of the sources that is meant.
abbrev first_of_sources : Sources → (source path : Value) → (Kind → Value) → List Capture
first_of_sources [] source path owner = []
first_of_sources ((name, kind) ∷ sources) source path owner =
    let later = first_of_sources sources source path owner in
    if is source name then one_capture kind path (owner kind) else later

-- No source stands twice.
abbrev Apart : Sources → Type 0
Apart [] = Unit
Apart ((name, kind) ∷ sources) = All (λ s. (s.0 == name) ≡ false) sources × Apart sources

capture_lem :
    (c : Capture) (kind : Kind) (value owner : Value)
    → In c (one_capture kind value owner)
      ↔ ((c.kind ≡ kind) × (c.value ≡ value) × (c.owner ≡ owner))
capture_lem c kind value owner = (
  λ h. elim h [
    | inl same ↦ (ap (λ d. d.kind) same, ap (λ d. d.value) same, ap (λ d. d.owner) same)
    | inr nothing ↦ absurd nothing
  ],
  λ h. inl (ground (arith, h)),
)

is_same : (name : String) → is (str name) name ≡ true
is_same name = eq_refl name

other_source :
    (sources : Sources) (source : Value) (kind : Kind) (name : String)
    → OfKind sources source kind
    → All (λ s. (s.0 == name) ≡ false) sources
    → is source name ≡ false
other_source [] source kind name h apart = absurd h
other_source (s ∷ sources) source kind name (inl (here, of_kind)) (apart, others) = rw here apart
other_source (s ∷ sources) source kind name (inr later) (apart, others) =
    other_source sources source kind name later others

first_of_sources_iff :
    (sources : Sources) (source path : Value) (owner : Kind → Value) (c : Capture)
    → Apart sources
    → In c (first_of_sources sources source path owner) ↔ Reads sources source path owner c
first_of_sources_iff [] source path owner c apart = (λ h. absurd h, λ h. absurd h.0)
first_of_sources_iff ((name, kind) ∷ sources) source path owner c (new, apart) =
    elim (Bool-cases (is source name)) [
      | inl here ↦ rw here (
        λ h.
            let (k, v, o) = (capture_lem c kind path (owner kind)).0 h in
            (inl (is_lem source name here, k), v, o ∙ ap owner (sym k)),
        λ h. elim h.0 [
          | inl (_, k) ↦ (capture_lem c kind path (owner kind)).1 (k, h.1, h.2 ∙ ap owner k)
          | inr later ↦ cc (here, other_source sources source c.kind name later new)
        ],
      )
      | inr other ↦ rw other (
        λ h.
            let (k, v, o) = (first_of_sources_iff sources source path owner c apart).0 h in
            (inr k, v, o),
        λ h. elim h.0 [
          | inl (same, _) ↦ cc (other, is_same name, ap (λ s. is s name) same)
          | inr later ↦ (first_of_sources_iff sources source path owner c apart).1 (later, h.1, h.2)
        ],
      )
    ]

if_enabled_iff :
    (disabled : Bool) (c : Capture) (cs : List Capture)
    → In c (if disabled then [] else cs) ↔ ((disabled ≡ false) × In c cs)
if_enabled_iff true c cs = (λ h. absurd h, λ h. cc (h.0))
if_enabled_iff false c cs = (λ h. (refl, h), λ h. h.1)

headers_iff :
    (c : Capture) (owner : Value) (names : List Value)
    → In c (concat_map (λ name. one_capture header name owner) names)
      ↔ Exists (ReadsHeader owner c) names
headers_iff c owner names =
    then_iff (Exists-concat_map (λ d. c ≡ d) (λ name. one_capture header name owner) names)
      (Exists-iff (λ name. capture_lem c header name owner) names)

http_capture_by :
    (f : Field) (owner body_owner : Value) (by_kind : Kind → Value)
    → by_kind body_path ≡ body_owner
    → by_kind header ≡ owner
    → by_kind query_param ≡ owner
    → by_kind path_param ≡ owner
    → http_capture f owner body_owner ≡ first_of_sources http_sources f.source f.path by_kind
unfolding http_capture
http_capture_by f owner body_owner by_kind b h q p = ground arith

messaging_capture_by :
    (f : Field) (owner : Value)
    → messaging_capture owner f ≡ first_of_sources messaging_sources f.source f.path (λ k. owner)
unfolding messaging_capture
messaging_capture_by f owner = ground arith

method_capture_by :
    (v : ValueSource) (owner : Value)
    → method_capture owner v ≡ first_of_sources method_sources v.source v.path (λ k. owner)
unfolding method_capture
method_capture_by v owner = ground arith

http_sources-Apart : Apart http_sources
http_sources-Apart = (
  (refl, (refl, (refl, (refl, (refl, tt))))),
  (
    (refl, (refl, (refl, (refl, tt)))),
    ((refl, (refl, (refl, tt))), ((refl, (refl, tt)), ((refl, tt), (tt, tt)))),
  ),
)

messaging_sources-Apart : Apart messaging_sources
messaging_sources-Apart = ((refl, (refl, tt)), ((refl, tt), (tt, tt)))

method_sources-Apart : Apart method_sources
method_sources-Apart = ((refl, tt), (tt, tt))

either_iff : {P Q R S : Type 0} → P ↔ Q → R ↔ S → (P ⊎ R) ↔ (Q ⊎ S)
either_iff f g = (
  λ h. elim h [ inl l ↦ inl (f.0 l) | inr r ↦ inr (g.0 r) ],
  λ h. elim h [ inl l ↦ inl (f.1 l) | inr r ↦ inr (g.1 r) ],
)

module _ (c : Capture) where
  append_iff :
      (xs ys : List Capture) {P Q : Type 0} → In c xs ↔ P → In c ys ↔ Q → In c (xs ++ ys) ↔ (P ⊎ Q)
  append_iff xs ys f g = then_iff (Exists-append (λ d. c ≡ d) xs ys) (either_iff f g)

  concat_map_iff :
      {A : Type 0} {P : A → Type 0} (f : A → List Capture) (xs : List A)
      → ((x : A) → In c (f x) ↔ P x)
      → In c (concat_map f xs) ↔ Exists P xs
  concat_map_iff f xs h = then_iff (Exists-concat_map (λ d. c ≡ d) f xs) (Exists-iff h xs)

  enabled_iff :
      (disabled : Bool) (cs : List Capture) {P : Type 0}
      → In c cs ↔ P
      → In c (if disabled then [] else cs) ↔ ((disabled ≡ false) × P)
  enabled_iff disabled cs h = then_iff (if_enabled_iff disabled c cs) (both_iff same_iff h)

  by_sources :
      (sources : Sources) (cs : List Capture) (source path : Value) (owner : Kind → Value)
      → Apart sources
      → cs ≡ first_of_sources sources source path owner
      → In c cs ↔ Reads sources source path owner c
  by_sources sources cs source path owner apart form =
      subst (λ ds. In c ds ↔ Reads sources source path owner c) (sym form)
        (first_of_sources_iff sources source path owner c apart)

  http_event_iff : (e : EventPolicy) → In c (http_event_captures e) ↔ ByHttpEvent c e
  unfolding http_event_captures
  http_event_iff e =
      let owner = owner_of e.id e.event_name "httpEvent" in
      let body_owner = owner_of e.id e.event_name "bodyEvent" in
      enabled_iff (is_false e.enabled) _ (
        append_iff (concat_map (λ f. http_capture f owner body_owner) e.conditions)
          (concat_map (λ f. http_capture f owner owner) e.fields)
          (concat_map_iff (λ f. http_capture f owner body_owner) e.conditions
            (λ f.
              by_sources http_sources (http_capture f owner body_owner) f.source f.path
                (condition_owner e) http_sources-Apart
                (http_capture_by f owner body_owner (condition_owner e) refl refl refl refl)))
          (concat_map_iff (λ f. http_capture f owner owner) e.fields
            (λ f.
              by_sources http_sources (http_capture f owner owner) f.source f.path (λ k. owner)
                http_sources-Apart
                (http_capture_by f owner owner (λ k. owner) refl refl refl refl))))

  messaging_event_iff : (e : EventPolicy) → In c (messaging_event_captures e) ↔ ByMessagingEvent c e
  unfolding messaging_event_captures
  messaging_event_iff e =
      let owner = owner_of e.id e.event_name "messagingEvent" in
      enabled_iff (is_false e.enabled) _ (
        then_iff
          (concat_map_iff (messaging_capture owner) (e.conditions ++ e.fields) (λ f.
            by_sources messaging_sources (messaging_capture owner f) f.source f.path (λ k. owner)
              messaging_sources-Apart (messaging_capture_by f owner)))
          (Exists-append (λ f. Reads messaging_sources f.source f.path (λ k. owner) c) e.conditions
            e.fields))

  value_iff :
      (m : Method) (v : ValueSource)
      → In c (method_capture (owner_of m.id m.method_name "method") v) ↔ ByValue m c v
  value_iff m v =
      let owner = owner_of m.id m.method_name "method" in
      by_sources method_sources (method_capture owner v) v.source v.path (λ k. owner)
        method_sources-Apart (method_capture_by v owner)

  metric_value_iff :
      (m : Method) (v : Option ValueSource)
      → In c (metric_value_capture (owner_of m.id m.method_name "method") v) ↔ ByMetricValue m c v
  unfolding metric_value_capture
  metric_value_iff m none = same_iff
  metric_value_iff m (some v) = value_iff m v

  method_iff : (m : Method) → In c (method_captures m) ↔ ByMethod c m
  unfolding method_captures
  method_iff m =
      let owner = owner_of m.id m.method_name "method" in
      enabled_iff (is_false m.enabled) _ (
        append_iff (concat_map (method_capture owner) m.captures)
          (concat_map (metric_value_capture owner) m.metric_values)
          (concat_map_iff (method_capture owner) m.captures (value_iff m))
          (concat_map_iff (metric_value_capture owner) m.metric_values (metric_value_iff m)))

  metric_iff :
      (m : HttpMetric)
      → In c (
          if is_false m.enabled
          then []
          else concat_map
              (λ name. one_capture header name (owner_of m.id m.name "httpMetric"))
              m.custom_headers)
        ↔ ByMetric c m
  metric_iff m =
      enabled_iff (is_false m.enabled) _
        (headers_iff c (owner_of m.id m.name "httpMetric") m.custom_headers)

  -- The calls of `add` are for the captures of the policy.
  pub policy_captures_iff : (p : Policy) → In c (policy_captures p) ↔ Captures p c
  unfolding policy_captures header_captures
  policy_captures_iff p =
      append_iff _ _
        (append_iff _ _ (headers_iff c (str "requestHeaders") p.request_headers) (
          append_iff _ _ (headers_iff c (str "responseHeaders") p.response_headers)
            (concat_map_iff _ p.metric_policies metric_iff)))
        (append_iff _ _ (concat_map_iff http_event_captures p.body_event_policies http_event_iff) (
          append_iff _ _
            (concat_map_iff messaging_event_captures p.messaging_event_policies messaging_event_iff)
            (concat_map_iff method_captures p.method_policies method_iff)))
