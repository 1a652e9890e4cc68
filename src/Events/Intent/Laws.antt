-- ===== src/Events/Intent/Laws.antt =====
-- A metric that was configured for an intent has it.
use otel_opamp_control_plane.Js.{
  Value, undefined, null, bool, num, str, or_else, truthy, default_to,
}
use otel_opamp_control_plane.Events.{EventMetric}
use otel_opamp_control_plane.Events.Intent.{event_metric_intent, configure_event_metric_intent}
use otel_opamp_control_plane.Prelude.{
  String, ◌≡◌, refl, ap, ◌∙◌, inl, inr, ◌||◌, if◌then◌else◌, Bool-cases,
}

truthy-or_else : (a b : Value) → truthy (or_else a b) ≡ (truthy a || truthy b)
truthy-or_else a b = elim (Bool-cases (truthy a)) [
  | inl given ↦ rw given given
  | inr missing ↦ rw missing refl
]

truthy-default_to : (d : Value) → truthy (default_to (str "") d) ≡ truthy d
truthy-default_to undefined = refl
truthy-default_to null = refl
truthy-default_to (bool b) = refl
truthy-default_to (num n) = refl
truthy-default_to (str s) = refl

-- After `configureEventMetricIntent` a metric has the intent that was asked for, when that is one of
-- the three, but for `TOTAL` with neither a value field nor a default one, which leaves it `COUNT`.
pub intent-configure :
    (m : EventMetric) (default_numeric_field : Value)
    → let configured = λ (intent : String).
      event_metric_intent (configure_event_metric_intent m (str intent) default_numeric_field) in
      (configured "COUNT" ≡ "COUNT")
      × (configured "DISTRIBUTION" ≡ "DISTRIBUTION")
      × (configured "TOTAL"
          ≡ (if truthy m.value_field || truthy default_numeric_field then "TOTAL" else "COUNT"))
unfolding event_metric_intent configure_event_metric_intent
intent-configure m d = (
  refl,
  refl,
  ap (λ b. if b then "TOTAL" else "COUNT")
      (truthy-or_else m.value_field (default_to (str "") d)
        ∙ ap (λ b. truthy m.value_field || b) (truthy-default_to d)),
)
