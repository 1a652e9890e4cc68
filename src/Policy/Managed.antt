-- ===== src/Policy/Managed.antt =====
-- `buildManagedPolicies` and `filterManagedPolicies` of ui/src/policy-management.js: the stored versions
-- of each policy, what may be done with the policy, and its destinations. `Date.parse` and
-- `localeCompare` with its options are parameters.
pub mod Last
pub mod Sorted
pub mod Laws
pub mod Filter
pub mod Groups
use otel_opamp_control_plane.Js.Text.{includes as contains, trim, to_upper, to_lower}
use Prim.Native.Nat.{compare as compare_nat}
use Prim.Native.String
use otel_opamp_control_plane.Prelude.{
  Ordering, ℕ, zero, suc, ◌+◌, ◌-◌, ◌*◌, ◌/◌, ◌%◌, ◌≤◌, ◌<◌, Char, code, String, ◌≡◌, refl, sym, ap,
  ◌∙◌, subst, ◌≢◌, ◌↔◌, ◌⊎◌, inl, inr, Bool, true, false, not, ◌&&◌, ◌||◌, Option, none, some, List,
  [], ◌∷◌, ◌++◌, map, reverse, foldl, arith, ◌==◌, starts_with, eq_iff, eq_refl, ltb, leb, eqb,
  is_empty, empty_lem, if◌then◌else◌, Bool-cases, Option-cases, leb→le, ltb→lt, tests, length,
  get_elem?, concat_map, any, all, filter, count, length-filter, All, All-filter, All-append,
  count-le, All-of_count_eq, count_congr, All-intro, All-map, All-zip, count-eq-length_iff,
  count-le-length, then_iff, both_iff, not-false, not_below, same_iff, not_equal_iff,
  equal_false_iff, not_or, not_zero,
}
use otel_opamp_control_plane.Js.{
  Value, Num, nan, whole, str, num, to_string, to_number, nullish, or_else, truthy, strict_eq,
  num_eq, text_of, is, is_false,
}
use otel_opamp_control_plane.Js.Sort.{or_then, sort}
use otel_opamp_control_plane.Account.{number_or_zero}
use otel_opamp_control_plane.Deployment.{Fields, includes, same_value}
use otel_opamp_control_plane.Coverage.{DeploymentRecord}
use otel_opamp_control_plane.Events.{array}
use otel_opamp_control_plane.Version.{Compare, descending}
use otel_opamp_control_plane.Selection.{Selection, matches_any_selection}
use otel_opamp_control_plane.Policy.Summary.{Summary, status_text, summarize_policy_destinations}

pub record PolicyVersion : Type 0 where
  pub target : Value
  pub config_id : Value
  pub config_id_upper : Value
  pub id : Value
  pub version_upper : Value
  pub version : Value
  pub action_upper : Value
  pub action : Value
  pub active_upper : Value
  pub active : Value
  pub updated_at : Value
  pub created_at : Value
  pub source_version_upper : Value
  pub source_version : Value
  pub created_by : Value
  pub hash : Value
  pub services : Option (List Value)
  pub attributes : Option Fields

unfoldable pub policy_config_id : PolicyVersion → Value
policy_config_id v = or_else v.config_id (or_else v.config_id_upper (or_else v.id (str "")))

unfoldable pub policy_version_number : PolicyVersion → Num
policy_version_number v = to_number (nullish v.version_upper (nullish v.version (num (whole 0))))

unfoldable pub policy_version_action : PolicyVersion → String
policy_version_action v =
    to_upper (to_string (or_else v.action_upper (or_else v.action (str "PUBLISHED"))))

unfoldable pub is_deactivated_policy_version : PolicyVersion → Bool
is_deactivated_policy_version v =
    policy_version_action v == "DEACTIVATED" || (is_false v.active_upper || is_false v.active)

-- `a < b`, which `NaN` never satisfies.
abbrev pub num_below : Num → Num → Bool
num_below (whole a) (whole b) = ltb a b
num_below _ _ = false

-- The versions of one policy: the first that was met, and those after it.
pub record Group : Type 0 where
  pub id : Value
  pub first : PolicyVersion
  pub others : List PolicyVersion

-- `grouped.set(id, [...(grouped.get(id) || []), version])`
unfoldable pub add_version : Value → PolicyVersion → List Group → List Group
add_version id v [] = record { id = id; first = v; others = [] } ∷ []
add_version id v (g ∷ groups) =
    let rest = add_version id v groups in
    if same_value g.id id then record g { others = g.others ++ (v ∷ []) } ∷ groups else g ∷ rest

-- A version of a Java policy that has an id.
abbrev pub is_grouped : PolicyVersion → Bool
is_grouped v = is v.target "java-extension" && truthy (policy_config_id v)

abbrev pub group_version : List Group → PolicyVersion → List Group
group_version groups v =
    let added = add_version (policy_config_id v) v groups in if is_grouped v then added else groups

unfoldable pub grouped : List PolicyVersion → List Group
grouped versions = foldl group_version [] versions

-- `xs.at(-1)`
abbrev pub last : {A : Type 0} → List A → Option A
last [] = none
last (x ∷ []) = some x
last (x ∷ y ∷ ys) = last (y ∷ ys)

abbrev pub last_or : {A : Type 0} → A → List A → A
last_or default xs = elim (last xs) [ none ↦ default | some x ↦ x ]

-- A version that the latest one can be taken back to.
unfoldable pub is_earlier : PolicyVersion → PolicyVersion → Bool
is_earlier latest v =
    let source = to_number (
      nullish latest.source_version_upper
        (nullish latest.source_version (num (policy_version_number latest)))) in
    (policy_version_action v == "PUBLISHED") && num_below (policy_version_number v) source

pub record ManagedPolicy : Type 0 where
  pub id : Value
  pub target : Value
  pub versions : List PolicyVersion
  pub version_count : ℕ
  pub latest_version : PolicyVersion
  pub previous_version : Option PolicyVersion
  pub last_content_version : Option PolicyVersion
  pub active : Bool
  pub lifecycle_status : String
  pub action : String
  pub action_label : String
  pub attributes : Fields
  pub services : List Value
  pub records : List DeploymentRecord
  pub destination_summary : Summary

-- `[...new Set(values.filter(Boolean))]`, from the values that are there.
unfoldable pub distinct_values : List Value → List Value → List Value
distinct_values seen [] = []
distinct_values seen (v ∷ vs) =
    let with_v = distinct_values (v ∷ seen) vs in
    let without_v = distinct_values seen vs in
    if truthy v && not (includes seen v) then v ∷ with_v else without_v

-- The order of `sort()` without a comparison: that of the UTF-16 code units of the texts.
abbrev units : String → List ℕ
units String.[] = []
units (String.◌∷◌ c s) =
    let rest = units s in
    let n = code c in
    if ltb n 0x10000
    then n ∷ rest
    else (0xd800 + (n - 0x10000) / 0x400) ∷ (0xdc00 + (n - 0x10000) % 0x400) ∷ rest

abbrev compare_units : List ℕ → List ℕ → Ordering
compare_units [] [] = Ordering.eq
compare_units [] (b ∷ bs) = Ordering.lt
compare_units (a ∷ more) [] = Ordering.gt
compare_units (a ∷ more) (b ∷ bs) = or_then (compare_nat a b) (compare_units more bs)

unfoldable pub compare_values : Value → Value → Ordering
compare_values left right = compare_units (units (to_string left)) (units (to_string right))

-- The label of an action with the version that it restores.
abbrev pub label_of : Option PolicyVersion → String
label_of none = "Retirar policy"
label_of (some v) =
    String.◌++◌ "Restaurar contenido de v" (to_string (num (policy_version_number v)))

abbrev pub action_of : Option PolicyVersion → String
action_of none = "DEACTIVATE"
action_of (some v) = "REVERT"

module _ (locale_compare : Compare) (date_parse : Value → Num) where
  unfoldable pub version_timestamp : PolicyVersion → Num
  version_timestamp v =
      whole
        (number_or_zero (date_parse (or_else v.updated_at (or_else v.created_at (num (whole 0))))))

  unfoldable pub compare_policy_versions : PolicyVersion → PolicyVersion → Ordering
  compare_policy_versions left right =
      or_then (descending (policy_version_number right) (policy_version_number left))
        (descending (version_timestamp right) (version_timestamp left))

  unfoldable pub sort_policy_versions : List PolicyVersion → List PolicyVersion
  sort_policy_versions versions = sort compare_policy_versions versions

  unfoldable pub latest_records :
      Value → PolicyVersion → List DeploymentRecord → List DeploymentRecord
  latest_records id latest deployments =
      filter
        (λ record_.
          strict_eq record_.config_id id
          && num_eq (to_number record_.version) (policy_version_number latest))
        deployments

  unfoldable pub managed_policy : List DeploymentRecord → Group → ManagedPolicy
  managed_policy deployments g =
      let versions = sort_policy_versions (g.first ∷ g.others) in
      let latest = last_or g.first versions in
      let active = not (is_deactivated_policy_version latest) in
      let previous = (if active then last (filter (is_earlier latest) versions) else none) in
      let records = latest_records g.id latest deployments in
      record {
        id = g.id;
        target = latest.target;
        versions = versions;
        version_count = length versions;
        latest_version = latest;
        previous_version = previous;
        last_content_version = last (filter (λ v. not (is_deactivated_policy_version v)) versions);
        active = active;
        lifecycle_status = if active then "ACTIVE" else "DEACTIVATED";
        action = if active then action_of previous else "NONE";
        action_label = if active then label_of previous else "";
        attributes = array latest.attributes;
        services =
            sort compare_values
              (distinct_values [] (array latest.services ++ map DeploymentRecord.service records));
        records = records;
        destination_summary = summarize_policy_destinations records (not active);
      }

  unfoldable pub compare_managed_policies : ManagedPolicy → ManagedPolicy → Ordering
  compare_managed_policies left right =
      or_then
        (descending (version_timestamp left.latest_version)
          (version_timestamp right.latest_version))
        (locale_compare (to_string left.id) (to_string right.id))

  unfoldable pub build_managed_policies :
      List PolicyVersion → List DeploymentRecord → List ManagedPolicy
  build_managed_policies versions deployments =
      sort compare_managed_policies (map (managed_policy deployments) (grouped versions))
