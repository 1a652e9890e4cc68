-- ===== src/Contract/Laws.antt =====
-- A policy has no error exactly if it meets the contract of the wire format.
use otel_opamp_control_plane.Prelude.{
  then_iff, both_iff, not-false, eq_refl, concat_map, ℕ, ◌+◌, ◌≤◌, String, ◌≡◌, refl, ap, ◌∙◌, ◌↔◌,
  ◌⊎◌, Bool, true, false, not, ◌&&◌, Option, none, some, List, [], ◌∷◌, ◌++◌, map, arith, is_empty,
  if◌then◌else◌, All,
}
use otel_opamp_control_plane.Js.{apart_values, one_of, Value, bool, is}
use otel_opamp_control_plane.Contract.{
  no_output, Collection, missing, not_array, items, entries_of, objects, WirePolicy,
  http_event_has_output, messaging_event_has_output, indexed, error_if,
  value_source_contract_errors, is_bool, lacks_enabled, collection_errors, metric_errors,
  method_errors, named_events, duplicate_error, policy_wire_contract_errors,
}
use otel_opamp_control_plane.Capture.{HttpMetric, Method, ValueSource}
use otel_opamp_control_plane.Events.{EventPolicy, EventMetric, name_text}
use otel_opamp_control_plane.Events.Duplicates.{duplicate_telemetry_event_names}
use otel_opamp_control_plane.Events.Duplicates.Laws.{bearers, duplicate_telemetry_event_names_iff}

-- The array is missing, or each of its items is an object whose `enabled` is a Boolean.
abbrev pub HasEnabled : {A : Type 0} → (A → Value) → Collection A → Type 0
HasEnabled enabled missing = Unit
HasEnabled enabled not_array = ⊥
HasEnabled {A} enabled (items xs) =
    All (λ x. (a : A) × (x ≡ some a) × ((b : Bool) × (enabled a ≡ bool b))) xs

-- A source that reads an argument or a constant says which.
abbrev pub IsComplete : Option ValueSource → Type 0
IsComplete none = Unit
IsComplete (some v) =
    ((is v.source "ARGUMENT" ≡ false) ⊎ (v.has_argument_index ≡ true))
    × ((is v.source "CONSTANT" ≡ false) ⊎ (v.has_constant ≡ true))

abbrev pub MetricIsComplete : Option HttpMetric → Type 0
MetricIsComplete none = Unit
MetricIsComplete (some m) = IsComplete m.value

abbrev pub MethodIsComplete : Option Method → Type 0
MethodIsComplete none = Unit
MethodIsComplete (some m) =
    All (λ c. IsComplete (some c)) m.captures × All IsComplete m.metric_values

-- No two events of the policy bear the same name, unless it is empty.
abbrev pub NamesDiffer : WirePolicy → Type 0
NamesDiffer p =
    (name : String)
    → (is_empty name ≡ true)
      ⊎ (bearers
            (map name_text (
              objects (entries_of p.body_event_policies)
              ++ objects (entries_of p.messaging_event_policies)))
            name
          ≤ 1)

abbrev pub MeetsContract : WirePolicy → Type 0
MeetsContract p =
    HasEnabled HttpMetric.enabled p.metric_policies
    × (HasEnabled Method.enabled p.method_policies
        × (HasEnabled EventPolicy.enabled p.body_event_policies
            × (HasEnabled EventMetric.enabled p.event_metric_policies
                × (HasEnabled EventPolicy.enabled p.messaging_event_policies
                    × (HasEnabled EventMetric.enabled p.messaging_metric_policies
                        × (All MetricIsComplete (entries_of p.metric_policies)
                            × (All MethodIsComplete (entries_of p.method_policies)
                                × (NamesDiffer p
                                    × (All (λ e. http_event_has_output p e ≡ true)
                                          (entries_of p.body_event_policies)
                                        × (All (λ e. messaging_event_has_output p e ≡ true)
                                            (entries_of p.messaging_event_policies)))))))))))

listed : (x : String) (xs : List String) → one_of (x ∷ xs) x ≡ true
listed x xs = rw (eq_refl x) refl

one_or_more : (n : ℕ) → (n ≤ 1) ⊎ (2 ≤ n)
one_or_more n = ground arith

append-empty : {A : Type 0} (xs ys : List A) → (xs ++ ys ≡ []) ↔ ((xs ≡ []) × (ys ≡ []))
append-empty [] ys = (λ h. (refl, h), λ h. h.1)
append-empty (x ∷ xs) ys = (λ h. cc, λ h. cc (h.0))

-- Two reports, one after the other.
also :
    {A P Q : Type 0} {xs ys : List A}
    → ((xs ≡ []) ↔ P)
    → ((ys ≡ []) ↔ Q)
    → (xs ++ ys ≡ []) ↔ (P × Q)
also f g = then_iff (append-empty _ _) (both_iff f g)

indexed-empty :
    {A : Type 0} (P : A → Type 0) (errors : ℕ → A → List String)
    → ((i : ℕ) (x : A) → (errors i x ≡ []) ↔ P x)
    → (i : ℕ) (xs : List A) → (indexed errors i xs ≡ []) ↔ All P xs
indexed-empty P errors each i [] = (λ h. tt, λ h. refl)
indexed-empty P errors each i (x ∷ xs) = (
  λ h.
      let (here, later) = (append-empty (errors i x) _).0 h in
      ((each i x).0 here, (indexed-empty P errors each (i + 1) xs).0 later),
  λ h.
      (append-empty (errors i x) _).1
        ((each i x).1 h.0, (indexed-empty P errors each (i + 1) xs).1 h.1),
)

error_if-empty : (b : Bool) (message : String) → (error_if b message ≡ []) ↔ (b ≡ false)
error_if-empty true message = (λ h. cc, λ h. cc)
error_if-empty false message = (λ h. refl, λ h. refl)

is_bool_iff : (v : Value) → (not (is_bool v) ≡ false) ↔ ((b : Bool) × (v ≡ bool b))
is_bool_iff (bool b) = (λ h. (b, refl), λ h. refl)
is_bool_iff v = (λ h. cc, λ h. cc (h.1))

lacks_enabled_iff :
    {A : Type 0} (enabled : A → Value) (x : Option A)
    → (lacks_enabled enabled x ≡ false)
      ↔ ((a : A) × (x ≡ some a) × ((b : Bool) × (enabled a ≡ bool b)))
lacks_enabled_iff enabled none = (λ h. cc, λ h. cc (h.1))
lacks_enabled_iff {A} enabled (some a) = (
  λ h. (a, refl, (is_bool_iff (enabled a)).0 h),
  λ (x, same, (b, e)).
      let same_object : a ≡ x = cc same in
      (is_bool_iff (enabled a)).1 (b, ap enabled same_object ∙ e),
)

collection_errors-empty :
    {A : Type 0} (name : String) (enabled : A → Value) (c : Collection A)
    → (collection_errors name enabled c ≡ []) ↔ HasEnabled enabled c
unfolding collection_errors
collection_errors-empty name enabled missing = (λ h. tt, λ h. refl)
collection_errors-empty name enabled not_array = (λ h. cc, λ h. absurd h)
collection_errors-empty name enabled (items xs) =
    indexed-empty _ _ (λ i x. then_iff (error_if-empty _ _) (lacks_enabled_iff enabled x)) 0 xs

source_errors_iff :
    (a c i k : Bool) (m n : String)
    → (a && c) ≡ false
    → ((if a && not i then m ∷ [] else error_if (c && not k) n) ≡ [])
      ↔ (((a ≡ false) ⊎ (i ≡ true)) × ((c ≡ false) ⊎ (k ≡ true)))
source_errors_iff a c i k m n h = ground arith

value_source-empty :
    (owner : String) (v : Option ValueSource)
    → (value_source_contract_errors owner v ≡ []) ↔ IsComplete v
unfolding value_source_contract_errors
value_source-empty owner none = (λ h. tt, λ h. refl)
value_source-empty owner (some v) =
    source_errors_iff (is v.source "ARGUMENT") (is v.source "CONSTANT") v.has_argument_index
      v.has_constant _ _ (apart_values v.source "ARGUMENT" "CONSTANT" refl)

metric_errors-empty :
    (i : ℕ) (m : Option HttpMetric) → (metric_errors i m ≡ []) ↔ MetricIsComplete m
unfolding metric_errors
metric_errors-empty i none = (λ h. tt, λ h. refl)
metric_errors-empty i (some m) = value_source-empty _ m.value

method_errors-empty : (i : ℕ) (m : Option Method) → (method_errors i m ≡ []) ↔ MethodIsComplete m
unfolding method_errors
method_errors-empty i none = (λ h. tt, λ h. refl)
method_errors-empty i (some m) = then_iff (append-empty _ _) (
    both_iff
      (indexed-empty (λ c. IsComplete (some c)) _ (λ j c. value_source-empty _ (some c)) 0
        m.captures)
      (indexed-empty IsComplete _ (λ j v. value_source-empty _ v) 0 m.metric_values))

duplicate_errors-empty :
    (names : List String) → (concat_map duplicate_error names ≡ []) ↔ (names ≡ [])
duplicate_errors-empty [] = (λ h. refl, λ h. refl)
duplicate_errors-empty (name ∷ names) = (λ h. cc, λ h. cc)

nothing_in : (xs : List String) → (xs ≡ []) ↔ ((x : String) → one_of xs x ≡ false)
nothing_in [] = (λ h x. refl, λ h. refl)
nothing_in (x ∷ xs) = (λ h. cc, λ h. cc (listed x xs, h x))

not_true :
    (b : Bool) (n : ℕ) (e : Bool)
    → ((b ≡ true) ↔ ((e ≡ false) × (2 ≤ n)))
    → (b ≡ false) ↔ ((e ≡ true) ⊎ (n ≤ 1))
not_true b n e h = ground (arith, h.0, h.1)

NamesDiffer-iff :
    (p : WirePolicy)
    → (concat_map duplicate_error (duplicate_telemetry_event_names (named_events p)) ≡ [])
      ↔ NamesDiffer p
NamesDiffer-iff p =
    let report = duplicate_telemetry_event_names_iff (named_events p) in
    then_iff (duplicate_errors-empty _) (
      then_iff (nothing_in _) (
        λ h name. (not_true _ _ _ (report.1 name)).0 (h name),
        λ h name. (not_true _ _ _ (report.1 name)).1 (h name),
      ))

outputs-empty :
    (name : String) (has_output : Option EventPolicy → Bool) (es : List (Option EventPolicy))
    → (indexed (λ i e. error_if (not (has_output e)) (no_output name i)) 0 es ≡ [])
      ↔ All (λ e. has_output e ≡ true) es
outputs-empty name has_output es =
    indexed-empty (λ e. has_output e ≡ true) _
      (λ i e. then_iff (error_if-empty _ _) (not-false (has_output e))) 0 es

-- A policy has no error of the contract exactly if each of its arrays is missing or holds objects with
-- a Boolean `enabled`; each metric, capture and metric of a method names its argument or its constant
-- where it reads one; no two events bear the same name; and each event has an effect.
pub policy_wire_contract_errors-empty_iff :
    (p : WirePolicy) → (policy_wire_contract_errors (some p) ≡ []) ↔ MeetsContract p
unfolding policy_wire_contract_errors
policy_wire_contract_errors-empty_iff p =
    also (collection_errors-empty _ HttpMetric.enabled p.metric_policies) (
      also (collection_errors-empty _ Method.enabled p.method_policies) (
        also (collection_errors-empty _ EventPolicy.enabled p.body_event_policies) (
          also (collection_errors-empty _ EventMetric.enabled p.event_metric_policies) (
            also (collection_errors-empty _ EventPolicy.enabled p.messaging_event_policies) (
              also (collection_errors-empty _ EventMetric.enabled p.messaging_metric_policies) (
                also
                  (indexed-empty MetricIsComplete metric_errors metric_errors-empty 0
                    (entries_of p.metric_policies))
                  (also
                    (indexed-empty MethodIsComplete method_errors method_errors-empty 0
                      (entries_of p.method_policies))
                    (also (NamesDiffer-iff p) (
                      also
                        (outputs-empty "bodyEventPolicies" (http_event_has_output p)
                          (entries_of p.body_event_policies))
                        (outputs-empty "messagingEventPolicies" (messaging_event_has_output p)
                          (entries_of p.messaging_event_policies)))))))))))
