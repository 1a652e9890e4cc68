-- ===== src/Events/Edit.antt =====
-- The edits of a draft's events: removing an event, renaming one, and the fields that an event
-- offers to its metrics.
pub mod Laws
use otel_opamp_control_plane.Js.{Value, str, or_else, to_string, truthy, strict_eq}
use otel_opamp_control_plane.Js.Text.{to_upper}
use otel_opamp_control_plane.Events.{Field, EventPolicy, EventMetric, EventDraft, array}
use otel_opamp_control_plane.Prelude.{
  ℕ, zero, suc, ◌+◌, ◌-◌, ◌*◌, ◌/◌, ◌%◌, ◌≤◌, ◌<◌, Char, code, String, ◌≡◌, refl, sym, ap, ◌∙◌,
  subst, ◌≢◌, ◌↔◌, ◌⊎◌, inl, inr, Bool, true, false, not, ◌&&◌, ◌||◌, Option, none, some, List, [],
  ◌∷◌, ◌++◌, map, reverse, foldl, arith, ◌==◌, starts_with, eq_iff, eq_refl, ltb, leb, eqb,
  is_empty, empty_lem, if◌then◌else◌, Bool-cases, Option-cases, leb→le, ltb→lt, tests, length,
  get_elem?, any, all, filter, count, length-filter, All, All-filter, All-append, count-le,
  All-of_count_eq, count_congr, All-intro, All-map, All-zip, count-eq-length_iff, count-le-length,
}

-- The array without its element at an index, and with that element changed.
abbrev pub remove_at {ℓ} : {A : Type ℓ} → List A → ℕ → List A
remove_at [] i = []
remove_at (x ∷ xs) zero = xs
remove_at (x ∷ xs) (suc i) = x ∷ remove_at xs i

abbrev pub modify_at {ℓ} : {A : Type ℓ} → (A → A) → List A → ℕ → List A
modify_at f [] i = []
modify_at f (x ∷ xs) zero = f x ∷ xs
modify_at f (x ∷ xs) (suc i) = x ∷ modify_at f xs i

-- `events.some((event) => event.eventName === name)`
abbrev pub declares : List EventPolicy → Value → Bool
declares events name = any (λ e. strict_eq e.event_name name) events

-- The metrics that remain when the event `target` leaves `events`.
unfoldable pub metrics_after_removal :
    List EventPolicy → EventPolicy → Option (List EventMetric) → Option (List EventMetric)
metrics_after_removal events target metrics =
    if declares events target.event_name
    then metrics
    else some (filter (λ m. not (strict_eq m.event_name target.event_name)) (array metrics))

unfoldable pub remove_http_event_at : EventDraft → ℕ → EventDraft
remove_http_event_at p i = elim (get_elem? (array p.body_event_policies) i) [
  | none ↦ p
  | some target ↦
      let events = remove_at (array p.body_event_policies) i in
      record p {
        body_event_policies = some events;
        event_metric_policies = metrics_after_removal events target p.event_metric_policies;
      }
]

unfoldable pub remove_messaging_event_at : EventDraft → ℕ → EventDraft
remove_messaging_event_at p i = elim (get_elem? (array p.messaging_event_policies) i) [
  | none ↦ p
  | some target ↦
      let events = remove_at (array p.messaging_event_policies) i in
      record p {
        messaging_event_policies = some events;
        messaging_metric_policies = metrics_after_removal events target p.messaging_metric_policies;
      }
]

abbrev pub with_name : Value → EventPolicy → EventPolicy
with_name name e = record e { event_name = name }

-- A metric follows its event when that event was the only one of its name.
unfoldable pub renamed_metric : Value → ℕ → Value → EventMetric → EventMetric
renamed_metric previous previous_owners name m =
    if strict_eq m.event_name previous && eqb previous_owners 1
    then record m { event_name = name }
    else m

unfoldable pub owners : List EventPolicy → Value → ℕ
owners events name = count (λ e. strict_eq e.event_name name) events

unfoldable pub rename_http_event_at : EventDraft → ℕ → Value → EventDraft
rename_http_event_at p i name = elim (get_elem? (array p.body_event_policies) i) [
  | none ↦ p
  | some target ↦
      let events = array p.body_event_policies in
      let previous = target.event_name in
      record p {
        body_event_policies = some (modify_at (with_name name) events i);
        event_metric_policies = some (
            map (renamed_metric previous (owners events previous) name)
              (array p.event_metric_policies));
      }
]

unfoldable pub rename_messaging_event_at : EventDraft → ℕ → Value → EventDraft
rename_messaging_event_at p i name = elim (get_elem? (array p.messaging_event_policies) i) [
  | none ↦ p
  | some target ↦
      let events = array p.messaging_event_policies in
      let previous = target.event_name in
      record p {
        messaging_event_policies = some (modify_at (with_name name) events i);
        messaging_metric_policies = some (
            map (renamed_metric previous (owners events previous) name)
              (array p.messaging_metric_policies));
      }
]

-- The enabled events of a name and a direction.
unfoldable pub http_candidates : EventDraft → Value → String → List EventPolicy
http_candidates p name direction =
    filter
      (λ e.
        truthy e.enabled
        && (to_upper (to_string (or_else e.direction (str "INCOMING"))) == direction)
        && strict_eq e.event_name name)
      (array p.body_event_policies)

unfoldable pub fields_for_http_event : EventDraft → Value → String → List Field
fields_for_http_event p name direction = elim (http_candidates p name direction) [
  | [] ↦ []
  | e ∷ [] ↦ e.fields ++ e.derived_fields
  | _ ↦ []
]

unfoldable pub fields_for_messaging_event : EventDraft → Value → List Field
fields_for_messaging_event p name =
    let found =
      filter (λ e. truthy e.enabled && strict_eq e.event_name name)
        (array p.messaging_event_policies) in
    elim found [ [] ↦ [] | e ∷ [] ↦ e.fields | _ ↦ [] ]
