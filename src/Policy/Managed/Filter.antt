-- ===== src/Policy/Managed/Filter.antt =====
-- `filterManagedPolicies` and `policyLifecycleConfirmation`.
use otel_opamp_control_plane.Js.Text.{includes as contains, trim, to_lower}
use otel_opamp_control_plane.Policy.Managed.{contains, ManagedPolicy, policy_version_number}
use Prim.Native.String
use otel_opamp_control_plane.Js.{Value, Num, whole, str, num, to_string, text_of}
use otel_opamp_control_plane.Selection.{Selection, matches_any_selection}
use otel_opamp_control_plane.Policy.Summary.{status_text}
use otel_opamp_control_plane.Prelude.{
  String, Bool, ◌&&◌, ◌||◌, none, some, List, [], ◌∷◌, ◌++◌, map, ◌==◌, is_empty, if◌then◌else◌,
  any, filter,
}

pub record PolicyFilters : Type 0 where
  pub query : String
  pub status : Selection
  pub service : Selection

-- The texts that a search looks into.
abbrev pub searched : ManagedPolicy → List Value
searched policy =
    policy.id
    ∷ policy.latest_version.created_by
    ∷ policy.latest_version.hash
    ∷ str policy.lifecycle_status
    ∷ str (status_text policy.destination_summary.status)
    ∷ (policy.services
        ++ map (λ pair. str (String.◌++◌ pair.0 (String.◌++◌ "=" (to_string pair.1))))
            policy.attributes)

unfoldable pub policy_passes : PolicyFilters → ManagedPolicy → Bool
policy_passes filters policy =
    let needle = to_lower (trim filters.query) in
    matches_any_selection filters.status (
      Selection.array
        (str policy.lifecycle_status ∷ str (status_text policy.destination_summary.status) ∷ []))
    && (matches_any_selection filters.service (Selection.array policy.services)
        && (is_empty needle
            || any (λ value. contains (to_lower (text_of value)) needle) (searched policy)))

unfoldable pub filter_managed_policies : List ManagedPolicy → PolicyFilters → List ManagedPolicy
filter_managed_policies policies filters = filter (policy_passes filters) policies

-- The confirmation that an operator reads before an action.
unfoldable pub policy_lifecycle_confirmation : ManagedPolicy → String
policy_lifecycle_confirmation policy =
    let restored : Num = elim policy.previous_version [
      | none ↦ whole 0
      | some v ↦ policy_version_number v
    ] in
    if policy.action == "REVERT"
    then String.◌++◌ "¿Restaurar en " (
        String.◌++◌ (to_string policy.id) (
          String.◌++◌ " el contenido de v" (
            String.◌++◌ (to_string (num restored))
              "? Se publicará una versión nueva; ninguna versión existente se sobrescribe.")))
    else if policy.action == "DEACTIVATE"
    then String.◌++◌ "¿Retirar " (
        String.◌++◌ (to_string policy.id)
          " de todos sus destinos? Se publicará una versión nueva de retiro. Dejará de entregarse a las instancias actuales y futuras que coincidan, pero el historial se conservará.")
    else ""
