-- ===== src/Tests/Managed.antt =====
-- The theorems on managed policies, applied to two versions of a policy.
use otel_opamp_control_plane.Prelude.{Ordering, ℕ, ◌≡◌, refl, Bool, ◌&&◌, none, [], ◌∷◌, count, All}
use otel_opamp_control_plane.Js.{str, num, whole, nan, undefined, Value, Num, to_number, to_string}
use otel_opamp_control_plane.Js.Text.{to_upper}
use otel_opamp_control_plane.Js.Sort.{sort, insert}
use otel_opamp_control_plane.Version.{Compare}
use otel_opamp_control_plane.Tests.{applied_record}
use otel_opamp_control_plane.Policy.Managed.{
  PolicyVersion, Group, is_grouped, grouped, managed_policy, sort_policy_versions,
  compare_policy_versions, policy_version_number, version_timestamp, policy_version_action,
  is_deactivated_policy_version, is_earlier,
}
use otel_opamp_control_plane.Policy.Managed.Sorted.{IsNumbered}
use otel_opamp_control_plane.Policy.Managed.Laws.{Offer, managed_policy-Offer}
use otel_opamp_control_plane.Policy.Managed.Groups.{IsSorted, all_members, grouped_lem}

abbrev policy_version : ℕ → PolicyVersion
policy_version n = record {
  target = str "java-extension";
  config_id = str "policy-1";
  config_id_upper = undefined;
  id = undefined;
  version_upper = num (whole n);
  version = undefined;
  action_upper = undefined;
  action = undefined;
  active_upper = undefined;
  active = undefined;
  updated_at = undefined;
  created_at = undefined;
  source_version_upper = undefined;
  source_version = undefined;
  created_by = str "ana";
  hash = undefined;
  services = none;
  attributes = none;
}

abbrev two_versions : Group
two_versions = record {
  id = str "policy-1";
  first = policy_version 2;
  others = policy_version 1 ∷ [];
}

abbrev no_locale : Compare
no_locale left right = Ordering.eq

abbrev no_dates : Value → Num
no_dates v = nan

both-IsNumbered : All IsNumbered (policy_version 2 ∷ policy_version 1 ∷ [])
unfolding policy_version_number to_number
both-IsNumbered = ((2, refl), ((1, refl), tt))

managed_policy-Offer_example :
    Offer
      (policy_version 2 ∷ policy_version 1 ∷ [])
      (managed_policy no_locale no_dates (applied_record ∷ []) two_versions)
managed_policy-Offer_example =
    managed_policy-Offer no_locale no_dates (applied_record ∷ []) two_versions both-IsNumbered

-- The second version can be taken back to the first.
restores_first :
    (managed_policy no_locale no_dates (applied_record ∷ []) two_versions).action ≡ "REVERT"
unfolding managed_policy sort_policy_versions compare_policy_versions policy_version_number
    version_timestamp policy_version_action is_deactivated_policy_version is_earlier sort insert
    to_number to_string to_upper
restores_first = refl

grouped_lem_example :
    All IsSorted (grouped (policy_version 2 ∷ policy_version 1 ∷ []))
    × ((p : PolicyVersion → Bool)
        → count p (all_members (grouped (policy_version 2 ∷ policy_version 1 ∷ [])))
          ≡ count (λ v. is_grouped v && p v) (policy_version 2 ∷ policy_version 1 ∷ []))
grouped_lem_example = grouped_lem (policy_version 2 ∷ policy_version 1 ∷ [])
